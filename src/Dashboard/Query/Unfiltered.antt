-- ===== src/Dashboard/Query/Unfiltered.antt =====
-- What is flagged `unfiltered` does not depend on the request's filters.
use buchi_maker.Json.{Json}
