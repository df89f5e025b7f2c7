-- ===== src/Lib.antt =====
-- The backend of BuchiMaker (backend/app): dashboards over DuckDB, read through widgets and filters.
--
-- A request names a dashboard and sends filters keyed by widget. The filters become conditions on
-- columns (parse_widget_filters), the conditions a WHERE clause with bound parameters
-- (_build_sql_where), and the clause goes into the queries of the dashboard's totals, aggregates and
-- raw sources (get_data_for_filters), or of one widget (get_widget_page, export_widget_csv). The
-- answer is kept in Redis under the dashboard and the hash of the conditions, and is evicted when a
-- source that it was computed from is reloaded. Callers come with a session cookie, which stands for
-- an identity and a role. New data is loaded into a standby database, which is then promoted.
--
-- Which file is about which part of the repository:
-- - Validator: backend/app/core/validator.py. A ValueError is `err` with its message; the
--   middleware's answers are `Dispatch`. Path.resolve is the parameter `FileSystem`.
-- - Dashboard: the objects, operators and widget sets of backend/app/models/dashboard.py.
--   Dashboard.Where is _build_sql_where, Dashboard.Parse is parse_widget_filters, Dashboard.Widgets is
--   _build_widget_map, _raw_sources_needed and _widget_unfiltered_data_refs, Dashboard.Query is
--   get_data_for_filters, and Dashboard.Page is get_widget_page and export_widget_csv.
--   Dashboard.Load is load_yaml, from the mapping that the file holds: Load.Text has its two regular
--   expressions, Load.Start the part up to the base view, Load.Queries totals, aggregates and mappings,
--   Load.Layout the widgets; Load.Kinds, Grid, Widgets and Checked are about what its checks establish.
--   Dashboard.Filters is Filter, set_filters, trim_filters and refresh_filters, with the tables in DuckDB
--   as explicit state; Filters.Data is get_data with its truncation.
-- - Redis: the commands of Redis that the backend sends, as an interface with their documented
--   effects on texts, sets, deadlines and time; Redis.Memory is a store that has them.
-- - Cache: RedisCache of backend/app/core/redis_client.py.
-- - Session: backend/app/core/session_store.py, over the same interface; Session.Text is a codec that
--   shows that `Codec` can be met.
-- - Auth: backend/app/core/auth.py and roles.py, and resolve_claim of oidc.py.
-- - Db: backend/app/core/db.py: the variables of the module, the marker file and the connections that
--   were closed, as explicit state; `Disk` says which calls of a disk fail.
-- - Audit: backend/app/core/audit_pipeline.py: the queue, the counters, the batch of the writer thread
--   and what its two sinks have received; `Sinks` says which of them fail.
--   Audit.Log is the queries of backend/app/core/audit_db.py.
-- - Endpoint: post_dashboard_data of backend/app/api/dashboards.py, on top of Dashboard.Parse,
--   Dashboard.Query and Cache. A reply is the answer and the cache after it. Endpoint.Widget is
--   get_widget_page and export_widget_csv of the same file, on top of Dashboard.Page.
-- - Login: backend/app/api/auth.py and backend/app/core/oidc.py, over
--   Session and Auth. `Provider` is the identity provider and the JWT library. Login.Start is login, logout
--   and me, with the discovery of the provider and its cache; `Network` answers for the provider.
-- - System: backend/app/models/system_manager.py. System.Rate is the limit on refreshes, System.Refresh
--   is global_refresh, register_data_source and remove_data_source over Db and Cache, with what each of
--   the two database files holds; System.Files is load_dashboard and remove_dashboard, System.Sets the
--   widget sets, System.Schedule the automatic refresh. `World` says what the connectors read and what
--   DuckDB refuses.
-- - Connector: backend/app/connectors/base.py: the constructors and their checks, to_config and to_info;
--   Connector.Load is the statements that each `load` sends, Connector.Registry the registry of classes,
--   _save_data_sources and the reading of the list in load_persisted_state. `Engine` answers for the files,
--   DuckDB and BigQuery.
-- - Settings: backend/app/core/general_settings.py, with the file as explicit state and every write free to
--   fail; Settings.Api is the settings endpoints of backend/app/api/system.py.
-- - Sql: execute_sql of backend/app/api/system.py, over DuckDB's parser (`Duck`).
-- - Python: what the code takes from Python itself: str.strip, str.replace, str.split, int() and
--   float() on texts. Json: the values of a YAML file or a JSON body.
-- - Common: tests, lists, texts, dicts and results.
--
-- Parameters: the answers of DuckDB (`Database`, `Counting`), of Redis (`Redis`), of the file system
-- and of the disk, the text that Python prints for a list or a dict (`repr`), the JSON text of a
-- condition's value and the MD5 digest of the conditions (`Encoding`), the JSON codec of sessions, gzip
-- and json.dumps of a response (`Endpoint.Codec`), and in load_yaml a sum with a fraction, `int` of a
-- fraction and the class of word characters (`Load.Base.Python`), PyYAML and the environment
-- (`Settings.World`).
-- An exception is a value: `none`, `err`, or a flag that says where the server fails.
--
-- Bounds: every loop is structural recursion over the list or text that it reads. The decimal text of
-- a number n is written on fuel n + 1, which is more than its number of digits. Characters are code
-- points; str.lower is written for the letters of ASCII, the only ones in the texts that it is compared
-- with; decimal digits are those of Unicode 14.
--
-- Times are whole milliseconds where the code compares fractions of seconds. The task queue has one
-- worker, so that refreshes come one after the other.
--
-- Not modelled: reading the YAML file, the threads of the system manager, the order in which
-- load_persisted_state reads its three files, what a connector reads, the purge of the audit log, the
-- endpoints that only call one method, the other schemas, logging, the writing of CSV chunks, and calls
-- that interleave with a promotion in its grace period, and an active connection that cannot be opened
-- while a request reads data. load_yaml is modelled for the new object that load_dashboard gives it.
mod Common
pub mod Python
pub mod Json
pub mod Validator
pub mod Dashboard
pub mod Redis
pub mod Cache
pub mod Session
pub mod Auth
pub mod Db
pub mod Audit
pub mod Endpoint
pub mod System
pub mod Login
pub mod Connector
pub mod Settings
pub mod Sql
