-- ===== src/Outbox/Once.antt =====
-- No event of the outbox is lost: a row is marked only when its event was sent.
use go_modulith_template.Prelude.{
  ◌≡◌, ◌≢◌, refl, sym, ap, ◌∙◌, inl, inr, ◌⊎◌, ℕ, String, Bool, true, false, Option, none, some,
  List, [], ◌∷◌, ◌++◌, map, leb, ◌==◌, eq_string, any, filter, All, All-append, here, there, In,
  In-take, In-filter, In-kept, All_In, Option-cases, Bool-cases, arith, subst,
}
use text.Mathlib.TextEquality.{eq_iff}
use go_modulith_template.Outbox.{
  Entry, Batch, store, sort_in, by_time, is_unpublished, get_unpublished, mark, mark_published,
  publish_from, finish, process, Publisher, Faults,
}

-- The primary key: no two rows have one id.
abbrev pub IsKeyed : List Entry → Type 0
IsKeyed [] = Unit
IsKeyed (e ∷ es) = All (λ f. f.id ≢ e.id) es × IsKeyed es

keyed_unique :
    (e f : Entry) (db : List Entry) → IsKeyed db → In e db → In f db → f.id ≡ e.id → f ≡ e
keyed_unique e f [] h i j same = elim i [ ]
keyed_unique e f (x ∷ db) h (here _ p) (here _ q) same = sym q ∙ p
keyed_unique e f (x ∷ db) h (here _ p) (there _ j) same =
    absurd (All_In (λ g. g.id ≢ x.id) f db h.0 j (same ∙ ap Entry.id (sym p)))
keyed_unique e f (x ∷ db) h (there _ i) (here _ q) same =
    absurd (All_In (λ g. g.id ≢ x.id) e db h.0 i (sym same ∙ ap Entry.id (sym q)))
keyed_unique e f (x ∷ db) h (there _ i) (there _ j) same = keyed_unique e f db h.1 i j same

IsKeyed-snoc :
    (e : Entry) (db : List Entry)
    → any (λ f. f.id == e.id) db ≡ false
    → IsKeyed db
    → IsKeyed (db ++ e ∷ [])
IsKeyed-snoc e [] fresh h = (tt, tt)
IsKeyed-snoc e (x ∷ db) fresh h = (
  All-append (λ f. f.id ≢ x.id) db (e ∷ []) h.0 (ground (arith, fresh, eq_iff x.id e.id), tt),
  IsKeyed-snoc e db (ground (arith, fresh)) h.1,
)

-- `Store` keeps the ids of the rows distinct, whatever id it is given and whether or not it fails.
pub store-IsKeyed :
    (fault : Bool) (now : ℕ) (id name payload : String) (db : List Entry)
    → IsKeyed db
    → IsKeyed (store fault now id name payload db).0
unfolding store
store-IsKeyed true now id name payload db h = h
store-IsKeyed false now id name payload db h = elim (Bool-cases (any (λ e. e.id == id) db)) [
  | inl e ↦ rw e h
  | inr e ↦ rw e (IsKeyed-snoc _ db e h)
]

In-sort_in : (e f : Entry) (es : List Entry) → In f (sort_in e es) → In f (e ∷ es)
unfolding sort_in
In-sort_in e f [] = λ h. h
In-sort_in e f (x ∷ es) = elim (Bool-cases (leb e.created_at x.created_at)) [
  | inl le ↦ rw le (λ h. h)
  | inr gt ↦ rw gt (λ h. elim h [
    | here _ p ↦ there e (here es p)
    | there _ k ↦ elim (In-sort_in e f es k) [
      | here _ p ↦ here (x ∷ es) p
      | there _ q ↦ there e (there x q)
    ]
  ])
]

In-by_time : (f : Entry) (es : List Entry) → In f (by_time es) → In f es
unfolding by_time
In-by_time f [] = λ h. h
In-by_time f (e ∷ es) = (λ h. elim (In-sort_in e f (by_time es) h) [
  | here _ p ↦ here es p
  | there _ k ↦ there e (In-by_time f es k)
])

pub get_unpublished-unpublished :
    (limit : ℕ) (f : Entry) (db : List Entry)
    → In f (get_unpublished limit db)
    → is_unpublished f ≡ true
unfolding get_unpublished
get_unpublished-unpublished limit f db h =
    In-kept is_unpublished f db (In-by_time f (filter is_unpublished db) (In-take limit f _ h))

pub In-get_unpublished :
    (limit : ℕ) (f : Entry) (db : List Entry) → In f (get_unpublished limit db) → In f db
unfolding get_unpublished
In-get_unpublished limit f db h =
    In-filter is_unpublished f db (In-by_time f (filter is_unpublished db) (In-take limit f _ h))

pub In-map : (f : Entry → Entry) (e : Entry) (db : List Entry) → In e db → In (f e) (map f db)
In-map f e [] h = elim h [ ]
In-map f e (x ∷ db) (here _ p) = here (map f db) (ap f p)
In-map f e (x ∷ db) (there _ k) = there (f x) (In-map f e db k)

unmarked_stays :
    (ids : List String) (now : ℕ) (e : Entry) (db : List Entry)
    → any (λ id. id == e.id) ids ≡ false
    → In e db
    → In e (mark_published now ids db)
unfolding mark_published
unmarked_stays ids now e db h i =
    let own : mark now ids e ≡ e = rw (h, mark) in
    subst (λ f. In f (map (mark now ids) db)) own (In-map (mark now ids) e db i)

pub list-cases {ℓ} : {A : Type ℓ} (l : List A) → (l ≡ []) ⊎ ((x : A) × (xs : List A) × (l ≡ x ∷ xs))
list-cases [] = inl refl
list-cases (x ∷ xs) = inr (x, xs, refl)

module _ {ℓ} {Payload : Type ℓ} (unmarshal : String → Option Payload) where
  -- The row's event is among those sent.
  abbrev pub Sent : Entry → List (String × Payload) → Type ℓ
  Sent e sent =
      (payload : Payload) × (unmarshal e.payload ≡ some payload) × In (e.event_name, payload) sent

  pub publish_from_bad :
      (e : Entry) (es : List Entry)
      → unmarshal e.payload ≡ none
      → publish_from unmarshal (e ∷ es) ≡ publish_from unmarshal es
  unfolding publish_from
  publish_from_bad e es bad = rw (bad, publish_from)

  pub publish_from_good :
      (e : Entry) (es : List Entry) (payload : Payload)
      → unmarshal e.payload ≡ some payload
      → let b = publish_from unmarshal es in
        publish_from unmarshal (e ∷ es)
        ≡ record { sent = (e.event_name, payload) ∷ b.sent; published_ids = e.id ∷ b.published_ids }
  unfolding publish_from
  publish_from_good e es payload good = rw (good, publish_from)

  -- An id of the batch is that of one of its rows, whose event was sent.
  published_from :
      (id : String) (es : List Entry)
      → any (λ known. known == id) (publish_from unmarshal es).published_ids ≡ true
      → (f : Entry) × In f es × (f.id ≡ id) × Sent f (publish_from unmarshal es).sent
  published_from id [] = unfold publish_from in λ h. absurd (ground (arith, h))
  published_from id (e ∷ es) = elim (Option-cases (unmarshal e.payload)) [
    | inl bad ↦
        rw (publish_from_bad e es bad)
          (λ h. let (f, i, same, s) = published_from id es h in (f, there e i, same, s))
    | inr (payload, good) ↦
        rw (publish_from_good e es payload good) (elim (Bool-cases (e.id == id)) [
          | inl same ↦ λ _. (e, here es refl, (eq_iff e.id id).0 same, (payload, good, here _ refl))
          | inr other ↦ rw other (λ h.
              let (f, i, same, s) = published_from id es h in
              (f, there e i, same, (s.0, s.1, there _ s.2)))
        ])
  ]

  pub finish_marks :
      (b : Batch Payload) (id : String) (ids : List String) (now : ℕ) (db : List Entry)
      → b.published_ids ≡ id ∷ ids
      → finish false now b db
        ≡ record { db = mark_published now b.published_ids db; sent = b.sent; err = none }
  unfolding finish
  finish_marks b id ids now db some_sent = rw some_sent

  finish_keeps :
      (b : Batch Payload) (on_mark : Bool) (now : ℕ) (db : List Entry)
      → (b.published_ids ≡ []) ⊎ (on_mark ≡ true)
      → ((finish on_mark now b db).db ≡ db) × ((finish on_mark now b db).sent ≡ b.sent)
  unfolding finish
  finish_keeps b on_mark now db (inl e) = rw e (refl, refl)
  finish_keeps b on_mark now db (inr e) = elim (list-cases b.published_ids) [
    | inl f ↦ rw f (refl, refl)
    | inr (id, ids, f) ↦ rw (e, f) (refl, refl)
  ]

  finish-keeps-or-sends :
      (e : Entry) (es db : List Entry) (on_mark : Bool) (now : ℕ)
      → IsKeyed db
      → In e db
      → ((f : Entry) → In f es → In f db)
      → let x = finish on_mark now (publish_from unmarshal es) db in In e x.db ⊎ Sent e x.sent
  finish-keeps-or-sends e es db true now h i sub =
      rw ((finish_keeps (publish_from unmarshal es) true now db (inr refl)).0) (inl i)
  finish-keeps-or-sends e es db false now h i sub =
      let b = publish_from unmarshal es in
      elim (list-cases b.published_ids) [
        | inl none_sent ↦ rw ((finish_keeps b false now db (inl none_sent)).0) (inl i)
        | inr (id, ids, some_sent) ↦
            rw (finish_marks b id ids now db some_sent)
              (elim (Bool-cases (any (λ known. known == e.id) b.published_ids)) [
                | inl marked ↦
                    let (f, j, same, sent) = published_from e.id es marked in
                    let own = keyed_unique e f db h i (sub f j) same in
                    inr (subst (λ g. Sent g b.sent) own sent)
                | inr unmarked ↦ inl (unmarked_stays b.published_ids now e db unmarked i)
              ])
      ]

  -- A run of `Process` loses no event: a row of the table stays in it as it was, or its event was sent
  -- in this run. The rows have distinct ids; the statements may fail.
  pub process-keeps-or-sends :
      (p : Publisher) (faults : Faults) (now : ℕ) (db : List Entry) (e : Entry)
      → IsKeyed db
      → In e db
      → let x = process unmarshal p faults now db in In e x.db ⊎ Sent e x.sent
  unfolding process
  process-keeps-or-sends p faults now db e h i = elim (Bool-cases faults.on_query) [
    | inl fault ↦ rw fault (inl i)
    | inr ok ↦ rw ok (
        finish-keeps-or-sends e (get_unpublished p.batch_size db) db faults.on_mark now h i
          (λ f. In-get_unpublished p.batch_size f db))
  ]
