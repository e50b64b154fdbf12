-- ===== src/Outbox/Blocked.antt =====
-- Rows that do not decode are never marked: a full batch of them at the head of the outbox stays there.
use go_modulith_template.Prelude.{
  ◌≡◌, refl, ap, ◌∙◌, inl, inr, ℕ, ◌≤◌, String, Bool, true, false, Option, none, List, [], ◌∷◌,
  ◌++◌, leb, any, filter, filter-append, length, take_full-append, All, All-append, Bool-cases,
  arith, ◌==◌, eq_string,
}
use go_modulith_template.Outbox.{
  Entry, store, sort_in, by_time, is_unpublished, get_unpublished, publish_from, finish, process,
  Publisher, Faults,
}

-- What happens to the outbox: a transaction stores an event, or the publisher runs.
pub data Op : Type 0 where
  op_store : Bool → String → String → String → Op
  op_process : Faults → Op

-- Every row was stored at `now` or before.
abbrev Older : ℕ → List Entry → Type 0
Older now = All (λ e. e.created_at ≤ now)

sort_in-append :
    (e new : Entry) (es : List Entry)
    → e.created_at ≤ new.created_at
    → sort_in e (es ++ new ∷ []) ≡ sort_in e es ++ new ∷ []
unfolding sort_in
sort_in-append e new [] h = elim (Bool-cases (leb e.created_at new.created_at)) [
  | inl le ↦ rw le
  | inr gt ↦ absurd (ground (arith, gt, h))
]
sort_in-append e new (f ∷ es) h = elim (Bool-cases (leb e.created_at f.created_at)) [
  | inl le ↦ rw le
  | inr gt ↦ rw gt (ap (◌∷◌ f) (sort_in-append e new es h))
]

by_time-append :
    (new : Entry) (es : List Entry)
    → Older new.created_at es
    → by_time (es ++ new ∷ []) ≡ by_time es ++ new ∷ []
unfolding by_time sort_in
by_time-append new [] h = refl
by_time-append new (e ∷ es) h =
    ap (sort_in e) (by_time-append new es h.1) ∙ sort_in-append e new (by_time es) h.0

filter-Older :
    (p : Entry → Bool) (now : ℕ) (es : List Entry) → Older now es → Older now (filter p es)
filter-Older p now [] h = tt
filter-Older p now (e ∷ es) h = elim (Bool-cases (p e)) [
  | inl q ↦ rw q (h.0, filter-Older p now es h.1)
  | inr q ↦ rw q (filter-Older p now es h.1)
]

Older-later : (t now : ℕ) (es : List Entry) → t ≤ now → Older t es → Older now es
Older-later t now [] le h = tt
Older-later t now (e ∷ es) le h = (omega (arith, h.0, le), Older-later t now es le h.1)

-- A row that is stored later changes no batch that is full.
get_unpublished-append :
    (limit : ℕ) (db : List Entry) (new : Entry)
    → Older new.created_at db
    → is_unpublished new ≡ true
    → length (get_unpublished limit db) ≡ limit
    → get_unpublished limit (db ++ new ∷ []) ≡ get_unpublished limit db
unfolding get_unpublished
get_unpublished-append limit db new h fresh full =
    rw
      (
        filter-append is_unpublished db (new ∷ []),
        fresh,
        by_time-append new (filter is_unpublished db) (filter-Older is_unpublished _ db h),
      )
      (take_full-append limit (by_time (filter is_unpublished db)) (new ∷ []) full)

-- The clock does not go back.
abbrev pub Later : ℕ → List (ℕ × Op) → Type 0
Later t [] = Unit
Later t ((now, op) ∷ ops) = (t ≤ now) × Later now ops

module _ {ℓ} {Payload : Type ℓ} (unmarshal : String → Option Payload) (p : Publisher) where
  -- The history of the table under operations, each at its time, and the events sent by them.
  unfoldable pub run_all : List (ℕ × Op) → List Entry → List Entry × List (String × Payload)
  run_all [] db = (db, [])
  run_all ((now, op_store fault id name payload) ∷ ops) db =
      run_all ops (store fault now id name payload db).0
  run_all ((now, op_process faults) ∷ ops) db =
      let x = process unmarshal p faults now db in
      let rest = run_all ops x.db in (rest.0, x.sent ++ rest.1)

  -- The rows of a full batch do not decode.
  pub record Blocked (t : ℕ) (db : List Entry) : Type ℓ where
    pub older : All (λ e. e.created_at ≤ t) db
    pub full : length (get_unpublished p.batch_size db) ≡ p.batch_size
    pub undecodable : All (λ e. unmarshal e.payload ≡ none) (get_unpublished p.batch_size db)

  publish_none :
      (es : List Entry)
      → All (λ e. unmarshal e.payload ≡ none) es
      → publish_from unmarshal es ≡ record { sent = []; published_ids = [] }
  unfolding publish_from
  publish_none [] h = refl
  publish_none (e ∷ es) h = rw (h.0, publish_from) (publish_none es h.1)

  process-Blocked :
      (faults : Faults) (now t : ℕ) (db : List Entry)
      → Blocked t db
      → let x = process unmarshal p faults now db in (x.db ≡ db) × (x.sent ≡ [])
  unfolding process finish
  process-Blocked faults now t db h =
      rw (publish_none (get_unpublished p.batch_size db) h.undecodable)
        (elim (Bool-cases faults.on_query) [
          | inl e ↦ rw e (refl, refl)
          | inr e ↦ rw e (refl, refl)
        ])

  later-Blocked : (now t : ℕ) (db : List Entry) → t ≤ now → Blocked t db → Blocked now db
  later-Blocked now t db le h = record {
    older = Older-later t now db le h.older;
    full = h.full;
    undecodable = h.undecodable;
  }

  append-Blocked :
      (now t : ℕ) (new : Entry) (db : List Entry)
      → new.created_at ≡ now
      → is_unpublished new ≡ true
      → t ≤ now
      → Blocked t db
      → Blocked now (db ++ new ∷ [])
  append-Blocked now t new db at fresh le h =
      let before = Older-later t now db le h.older in
      let same = get_unpublished-append p.batch_size db new (rw at before) fresh h.full in
      record {
        older = All-append (λ e. e.created_at ≤ now) db (new ∷ []) before (omega (arith, at), tt);
        full = rw same h.full;
        undecodable = rw same h.undecodable;
      }

  store-Blocked :
      (fault : Bool) (now t : ℕ) (id name payload : String) (db : List Entry)
      → t ≤ now
      → Blocked t db
      → Blocked now (store fault now id name payload db).0
  unfolding store is_unpublished
  store-Blocked true now t id name payload db le h = later-Blocked now t db le h
  store-Blocked false now t id name payload db le h = elim (Bool-cases (any (λ e. e.id == id) db)) [
    | inl known ↦ rw (store, known) (later-Blocked now t db le h)
    | inr fresh ↦ rw (store, fresh) (append-Blocked now t _ db refl refl le h)
  ]

  -- When the oldest unpublished rows fill a batch and none of them decodes, no event is ever sent
  -- again, whatever is stored and however often the publisher runs, as long as the clock does not go
  -- back: `Process` skips such rows and does not mark them, so each query gives them again.
  pub run_all-Blocked :
      (ops : List (ℕ × Op)) (t : ℕ) (db : List Entry)
      → Later t ops
      → Blocked t db
      → (run_all ops db).1 ≡ []
  unfolding run_all
  run_all-Blocked [] t db later h = refl
  run_all-Blocked ((now, op_store fault id name payload) ∷ ops) t db later h =
      run_all-Blocked ops now (store fault now id name payload db).0 later.1
        (store-Blocked fault now t id name payload db later.0 h)
  run_all-Blocked ((now, op_process faults) ∷ ops) t db later h =
      let (same, none_sent) = process-Blocked faults now t db h in
      rw (same, none_sent) (run_all-Blocked ops now db later.1 (later-Blocked now t db later.0 h))
