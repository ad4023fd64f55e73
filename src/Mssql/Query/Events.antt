-- ===== src/Mssql/Query/Events.antt =====
-- The placeholders of the query of the change log.
use Prim.Native.String.{◌++◌ as ◌<>◌}
use pydblog.Prelude.{◌≡◌, refl, String, true, Option, none, some, List, ◌++◌, All, arith}
use pydblog.Builtins.{join}
use pydblog.Exec.{ok, err_ne_ok, and_then-eq-ok, collect}
use pydblog.Types.{TableSpec, business_columns}
use pydblog.Mssql.Identifier.{is_word, is_identifier, validate_identifier, quote_identifier}
use pydblog.Mssql.Identifier.Safe.{
  marks, marks-append, marks-all_words, all_words_of_identifier, validate_identifier-eq-ok,
}
use pydblog.Mssql.Query.{log_columns, event_query, event_query_of, build_event_query}
use pydblog.Mssql.Query.Clauses.{
  placeholders, placeholders-join, in_all-All, collect-All, placeholders-quote_identifier,
}

placeholders-is_identifier : (name : String) → is_identifier name ≡ true → placeholders name ≡ 0
unfolding is_word
placeholders-is_identifier name word =
    marks-all_words b'?' name refl (all_words_of_identifier name word)

placeholders-event_query :
    (name : String) (columns : List String)
    → is_identifier name ≡ true
    → All (λ c. placeholders c ≡ 0) columns
    → placeholders (event_query name columns) ≡ 2
unfolding event_query marks
placeholders-event_query name columns word h =
    let listed = placeholders-join ", " (log_columns ++ columns) refl in
    let none_in = in_all-All (log_columns ++ columns) (refl, (refl, (refl, (refl, (refl, h))))) in
    let tail : String = "(?, ?, N'all') ORDER BY __$start_lsn, __$seqval" in
    let counts : placeholders tail ≡ 2 = refl in
    omega (
      arith,
      listed,
      none_in,
      placeholders-is_identifier name word,
      counts,
      marks-append b'?' "SELECT " (
          join ", " (log_columns ++ columns)
          <> (" FROM cdc.fn_cdc_get_all_changes_" <> (name <> tail))),
      marks-append b'?' (join ", " (log_columns ++ columns))
          (" FROM cdc.fn_cdc_get_all_changes_" <> (name <> tail)),
      marks-append b'?' " FROM cdc.fn_cdc_get_all_changes_" (name <> tail),
      marks-append b'?' name tail,
    )

event_query_of-placeholders :
    (spec : TableSpec) (o : Option String) (q : String)
    → event_query_of spec o ≡ ok q
    → placeholders q ≡ 2
unfolding event_query_of
event_query_of-placeholders spec none q e = absurd (err_ne_ok _ _ e)
event_query_of-placeholders spec (some name) q e =
    let (valid, checked, e₁) = and_then-eq-ok (validate_identifier name "capture instance") _ q e in
    let (columns, named, built) =
      and_then-eq-ok (collect (λ c. quote_identifier c "business column") (business_columns spec)) _
        q e₁ in
    let same : event_query name columns ≡ q = cc in
    rw (← same) (
      placeholders-event_query name columns
        (validate_identifier-eq-ok name "capture instance" valid checked).0
        (collect-All (λ c. placeholders c ≡ 0) _
          (λ c quoted e'. placeholders-quote_identifier c "business column" quoted e')
          (business_columns spec) columns named))

-- A query of the change log that is built has two placeholders, which are for the two ends of the
-- window: no name that goes into the query adds one.
pub build_event_query-placeholders :
    (spec : TableSpec) (q : String) → build_event_query spec ≡ ok q → placeholders q ≡ 2
unfolding build_event_query
build_event_query-placeholders spec q e = event_query_of-placeholders spec spec.capture_instance q e
