-- ===== src/Sql/Examples.antt =====
-- Requests to a DuckDB that reads one SELECT from every text.
use buchi_maker.Common.{eqb, codes, ok, String, ◌≡◌, refl, true, false, ◌||◌, none, some, [], ◌∷◌}
use buchi_maker.Python.Chars.{strip, is_letter}
use buchi_maker.Sql.{Statement, Table, Duck, Reply, answered, http, search, execute_sql}
use buchi_maker.Sql.Guarded.{call, execute_sql-ran}

abbrev statement : Statement
statement = record { is_select = true; query = "SELECT globe FROM t" }

abbrev duck : Duck
duck = record {
  extract_statements = λ s. ok (statement ∷ []);
  execute = λ s. ok (record { columns = "a" ∷ "b" ∷ []; rows = (some "1" ∷ none ∷ []) ∷ [] });
  is_word = λ c. is_letter c || eqb c b'_';
}

runs :
    execute_sql duck true "SELECT globe FROM t "
    ≡ (answered "a\tb\n1\t\n", "SELECT globe FROM t" ∷ [])
unfolding execute_sql buchi_maker.Sql.checked_run search buchi_maker.Sql.call_here
    buchi_maker.Dashboard.Load.Text.after_word is_letter buchi_maker.Dashboard.Load.Text.skip_spaces
    buchi_maker.Sql.run buchi_maker.Sql.tsv
runs = refl

switched_off : execute_sql duck false "SELECT 1" ≡ (http 403 "SQL API is disabled.", [])
unfolding execute_sql
switched_off = refl

upper_case : search duck false "SELECT * FROM Read_CSV ('/etc/passwd')" ≡ true
unfolding search buchi_maker.Sql.call_here buchi_maker.Dashboard.Load.Text.after_word is_letter
    buchi_maker.Dashboard.Load.Text.skip_spaces
upper_case = refl

inside_word : search duck false "SELECT myglob(1)" ≡ false
unfolding search buchi_maker.Sql.call_here buchi_maker.Dashboard.Load.Text.after_word is_letter
inside_word = refl

-- three ways to read a file that the pattern does not see
comment_between : search duck false "SELECT * FROM read_csv/**/('/etc/passwd')" ≡ false
unfolding search buchi_maker.Sql.call_here buchi_maker.Dashboard.Load.Text.after_word is_letter
    buchi_maker.Dashboard.Load.Text.skip_spaces
comment_between = refl

quoted_name : search duck false "SELECT * FROM \"read_csv\"('/etc/passwd')" ≡ false
unfolding search buchi_maker.Sql.call_here buchi_maker.Dashboard.Load.Text.after_word is_letter
    buchi_maker.Dashboard.Load.Text.skip_spaces
quoted_name = refl

file_as_table : search duck false "SELECT * FROM '/app/data/orders.csv'" ≡ false
unfolding search buchi_maker.Sql.call_here buchi_maker.Dashboard.Load.Text.after_word is_letter
file_as_table = refl

execute_sql-ran_example :
    (true ≡ true)
    × (((s : Statement) × ((duck.extract_statements (strip (codes "SELECT globe FROM t"))
              ≡ ok (s ∷ []))
            × ((s.is_select ≡ true) × (s.query ≡ "SELECT globe FROM t"))))
        × (¬ (Path String "SELECT globe FROM t" "SELECT GLOB ('*') FROM t")))
unfolding execute_sql buchi_maker.Sql.checked_run search buchi_maker.Sql.call_here
    buchi_maker.Dashboard.Load.Text.after_word is_letter buchi_maker.Dashboard.Load.Text.skip_spaces
    buchi_maker.Sql.run buchi_maker.Sql.Guarded.ends buchi_maker.Sql.Guarded.is_cased
execute_sql-ran_example =
    execute_sql-ran duck true "SELECT globe FROM t" "SELECT globe FROM t" "SELECT " "glob" "GLOB"
      " " "'*') FROM t" refl refl refl refl refl
