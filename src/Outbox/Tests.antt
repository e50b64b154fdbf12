-- ===== src/Outbox/Tests.antt =====
-- The properties of the outbox at small tables.
use go_modulith_template.Prelude.{
  ℕ, ◌≡◌, ◌≢◌, ◌⊎◌, refl, String, true, false, Option, none, some, List, [], ◌∷◌, ◌==◌, eq_string,
  if◌then◌else◌, In, here, there, arith,
}
use text.Mathlib.TextEquality.{eq_iff}
use go_modulith_template.Outbox.{
  Entry, sort_in, finish, publish_from, Publisher, Faults, process, get_unpublished,
}
use go_modulith_template.Outbox.Once.{IsKeyed, Sent, process-keeps-or-sends}
use go_modulith_template.Outbox.Marks.{NotGiven, process-marks}
use go_modulith_template.Outbox.Blocked.{op_store, op_process, run_all, Blocked, run_all-Blocked}

-- A decoder that accepts every text but one.
abbrev decode : String → Option String
decode s = if s == "oops" then none else some s

abbrev row : String → String → ℕ → Entry
row id payload now = record {
  id = id;
  event_name = "user.created";
  payload = payload;
  created_at = now;
  published_at = none;
}

cc_false : false ≢ true
cc_false e = cc

other_id : (row "1" "a" 1).id ≢ (row "2" "b" 2).id
other_id e = cc_false ((eq_iff "1" "2").1 e)

abbrev table : List Entry
table = row "2" "b" 2 ∷ row "1" "a" 1 ∷ []

table-IsKeyed : IsKeyed table
table-IsKeyed = ((other_id, tt), (tt, tt))

abbrev two : Publisher
two = record { batch_size = 2 }

abbrev one : Publisher
one = record { batch_size = 1 }

abbrev fine : Faults
fine = record { on_query = false; on_mark = false }

process-keeps-or-sends_example :
    let x = process decode one fine 9 table in
    In (row "1" "a" 1) x.db ⊎ Sent decode (row "1" "a" 1) x.sent
process-keeps-or-sends_example =
    process-keeps-or-sends decode one fine 9 table (row "1" "a" 1) table-IsKeyed
      (there _ (here [] refl))

oldest_given : In (row "1" "a" 1) (get_unpublished 1 table)
unfolding get_unpublished sort_in
oldest_given = here [] refl

no_error : (process decode one fine 9 table).err ≡ none
unfolding process get_unpublished finish publish_from sort_in
no_error = refl

process-marks_example :
    let x = process decode one fine 9 table in
    In (record (row "1" "a" 1) { published_at = some 9 }) x.db
    × In ("user.created", "a") x.sent
    × NotGiven "1" x.db
process-marks_example =
    process-marks decode one fine 9 table (row "1" "a" 1) "a" oldest_given refl no_error

abbrev broken : List Entry
broken = row "1" "oops" 1 ∷ row "2" "b" 2 ∷ []

broken-Blocked : Blocked decode one 2 broken
unfolding get_unpublished sort_in
broken-Blocked = record {
  older = (omega arith, (omega arith, tt));
  full = refl;
  undecodable = (refl, tt);
}

run_all-Blocked_example :
    (run_all decode one
      ((3, op_store false "3" "user.created" "c") ∷ (4, op_process fine) ∷ [])
      broken).1
    ≡ []
run_all-Blocked_example =
    run_all-Blocked decode one
      ((3, op_store false "3" "user.created" "c") ∷ (4, op_process fine) ∷ []) 2 broken
      (omega arith, (omega arith, tt)) broken-Blocked
