-- ===== src/Outbox.antt =====
-- internal/outbox/outbox.go, with the table of migrations/shared/000001_outbox_table.up.sql as the
-- list of its rows in the order of insertion, times as seconds. The id that the source reads off the
-- clock, the times, the faults of the database and the JSON decoder are arguments; rows of one time,
-- which SQL may give in any order, are given in the order of insertion.
pub mod Once
pub mod Marks
pub mod Blocked
pub mod Tests
use go_modulith_template.Prelude.{
  ℕ, String, Bool, true, false, not, Option, none, some, List, [], ◌∷◌, ◌++◌, map, foldr, leb, ◌==◌,
  eq_string, if◌then◌else◌, take, filter, any,
}

pub record Entry : Type 0 where
  pub id : String
  pub event_name : String
  pub payload : String
  pub created_at : ℕ
  pub published_at : Option ℕ

-- What the methods wrap and return.
pub data OutboxError : Type 0 where
  store_failed query_failed mark_failed : OutboxError

-- The INSERT of `Store`: `id` is the primary key of the table.
unfoldable pub store :
    Bool → ℕ → String → String → String → List Entry → List Entry × Option OutboxError
store fault now id name payload db =
    if fault
    then (db, some store_failed)
    else if any (λ e. e.id == id) db
    then (db, some store_failed)
    else (
      db
          ++ record {
            id = id;
            event_name = name;
            payload = payload;
            created_at = now;
            published_at = none;
          }
            ∷ [],
      none,
    )

unfoldable pub is_unpublished : Entry → Bool
is_unpublished e = elim e.published_at [ none ↦ true | some _ ↦ false ]

-- ORDER BY created_at ASC.
unfoldable pub sort_in : Entry → List Entry → List Entry
sort_in e [] = e ∷ []
sort_in e (f ∷ es) =
    let rest = sort_in e es in if leb e.created_at f.created_at then e ∷ f ∷ es else f ∷ rest

unfoldable pub by_time : List Entry → List Entry
by_time = foldr sort_in []

unfoldable pub get_unpublished : ℕ → List Entry → List Entry
unfolding is_unpublished by_time
get_unpublished limit db = take limit (by_time (filter is_unpublished db))

abbrev pub mark : ℕ → List String → Entry → Entry
mark now ids e = if any (λ id. id == e.id) ids then record e { published_at = some now } else e

-- An empty list of ids leaves every row, as the early return of the source does.
unfoldable pub mark_published : ℕ → List String → List Entry → List Entry
mark_published now ids db = map (mark now ids) db

-- The two statements of a run fail, or not.
pub record Faults : Type 0 where
  pub on_query : Bool
  pub on_mark : Bool

-- The `batchSize` of a publisher; its timer and its channel are left out.
pub record Publisher : Type 0 where
  pub batch_size : ℕ

unfoldable pub new_publisher : Publisher
new_publisher = record { batch_size = 100 }

unfoldable pub set_batch_size : ℕ → Publisher → Publisher
set_batch_size size p = record p { batch_size = size }

-- The loop of `Process`: the events that it gives to the publisher, and `publishedIDs`.
pub record Batch {ℓ} (Payload : Type ℓ) : Type ℓ where
  pub sent : List (String × Payload)
  pub published_ids : List String

pub record Processed {ℓ} (Payload : Type ℓ) : Type ℓ where
  pub db : List Entry
  pub sent : List (String × Payload)
  pub err : Option OutboxError

module _ {ℓ} {Payload : Type ℓ} where
  unfoldable pub publish_from : (String → Option Payload) → List Entry → Batch Payload
  publish_from unmarshal [] = record { sent = []; published_ids = [] }
  publish_from unmarshal (e ∷ es) =
      let rest = publish_from unmarshal es in
      elim (unmarshal e.payload) [
        | none ↦ rest
        | some payload ↦ record {
          sent = (e.event_name, payload) ∷ rest.sent;
          published_ids = e.id ∷ rest.published_ids;
        }
      ]

  -- What `Process` does after the loop; `on_mark` is a fault of the update.
  unfoldable pub finish : Bool → ℕ → Batch Payload → List Entry → Processed Payload
  unfolding mark_published
  finish on_mark now batch db = elim batch.published_ids [
    | [] ↦ record { db = db; sent = batch.sent; err = none }
    | _ ∷ _ ↦
        if on_mark then record { db = db; sent = batch.sent; err = some mark_failed } else record {
          db = mark_published now batch.published_ids db;
          sent = batch.sent;
          err = none;
        }
  ]

  unfoldable pub process :
      (String → Option Payload) → Publisher → Faults → ℕ → List Entry → Processed Payload
  process unmarshal p faults now db =
      if faults.on_query
      then record { db = db; sent = []; err = some query_failed }
      else finish faults.on_mark now (publish_from unmarshal (get_unpublished p.batch_size db)) db
