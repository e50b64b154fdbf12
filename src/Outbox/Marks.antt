-- ===== src/Outbox/Marks.antt =====
-- The rows that a run of the publisher marks, and the events that it sends for them.
use go_modulith_template.Prelude.{
  ◌≡◌, ◌≢◌, refl, sym, ap, ◌∙◌, inl, inr, ℕ, String, Bool, true, false, Option, none, some, List,
  [], ◌∷◌, map, ◌==◌, eq_string, any, here, there, In, Option-cases, Bool-cases, arith, subst,
}
use text.Mathlib.TextEquality.{eq_iff}
use go_modulith_template.Outbox.{
  Entry, is_unpublished, Batch, get_unpublished, mark, mark_published, publish_from, finish,
  process, Publisher, Faults,
}
use go_modulith_template.Outbox.Once.{
  publish_from_bad, publish_from_good, finish_marks, In-map, In-get_unpublished,
  get_unpublished-unpublished,
}

some-ne-none {ℓ} : {A : Type ℓ} {a : A} → some a ≢ none
some-ne-none e = ground (arith, e)

marked-In :
    (ids : List String) (now : ℕ) (e : Entry) (db : List Entry)
    → any (λ id. id == e.id) ids ≡ true
    → In e db
    → In (record e { published_at = some now }) (mark_published now ids db)
unfolding mark_published
marked-In ids now e db h i =
    let own : mark now ids e ≡ record e { published_at = some now } = rw (h, mark) in
    subst (λ f. In f (map (mark now ids) db)) own (In-map (mark now ids) e db i)

In-mark_published :
    (ids : List String) (now : ℕ) (f : Entry) (db : List Entry)
    → In f (mark_published now ids db)
    → (g : Entry) × (f ≡ mark now ids g)
unfolding mark_published
In-mark_published ids now f [] h = elim h [ ]
In-mark_published ids now f (g ∷ db) (here _ p) = (g, sym p)
In-mark_published ids now f (g ∷ db) (there _ k) = In-mark_published ids now f db k

marked_is_published :
    (ids : List String) (now : ℕ) (id : String) (g : Entry)
    → any (λ known. known == id) ids ≡ true
    → (mark now ids g).id ≡ id
    → is_unpublished (mark now ids g) ≡ false
unfolding is_unpublished
marked_is_published ids now id g h = elim (Bool-cases (any (λ known. known == g.id) ids)) [
  | inl e ↦ rw e (λ _. refl)
  | inr e ↦ rw e (λ same. absurd (cc (e, ap (λ i. any (λ known. known == i) ids) same, h)))
]

-- No row with the id is given by a query, whatever its limit.
abbrev pub NotGiven : String → List Entry → Type 0
NotGiven id db = (limit : ℕ) (f : Entry) → In f (get_unpublished limit db) → f.id ≢ id

marked-NotGiven :
    (ids : List String) (now : ℕ) (id : String) (db : List Entry)
    → any (λ known. known == id) ids ≡ true
    → NotGiven id (mark_published now ids db)
marked-NotGiven ids now id db h limit f i same =
    let (g, own) = In-mark_published ids now f db (In-get_unpublished limit f _ i) in
    let done = marked_is_published ids now id g h (sym (ap Entry.id own) ∙ same) in
    absurd (cc (get_unpublished-unpublished limit f _ i, ap is_unpublished own, done))

some_published :
    (id : String) (ids : List String)
    → any (λ known. known == id) ids ≡ true
    → (x : String) × (xs : List String) × (ids ≡ x ∷ xs)
some_published id [] h = absurd (ground (arith, h))
some_published id (x ∷ xs) h = (x, xs, refl)

module _ {ℓ} {Payload : Type ℓ} (unmarshal : String → Option Payload) where
  mark_failed_is_error :
      (b : Batch Payload) (id : String) (ids : List String) (now : ℕ) (db : List Entry)
      → b.published_ids ≡ id ∷ ids
      → (finish true now b db).err ≢ none
  unfolding finish
  mark_failed_is_error b id ids now db some_sent = rw some_sent some-ne-none

  published_row :
      (e : Entry) (es : List Entry) (payload : Payload)
      → In e es
      → unmarshal e.payload ≡ some payload
      → (any (λ known. known == e.id) (publish_from unmarshal es).published_ids ≡ true)
        × In (e.event_name, payload) (publish_from unmarshal es).sent
  published_row e [] payload i good = elim i [ ]
  published_row e (f ∷ es) payload (here _ p) good =
      rw (publish_from_good unmarshal f es payload (ap (λ g. unmarshal g.payload) p ∙ good)) (
        ground (arith, eq_iff f.id e.id, ap Entry.id p),
        here _ (ap (λ g. (g.event_name, payload)) p),
      )
  published_row e (f ∷ es) payload (there _ k) good =
      let later = published_row e es payload k good in
      elim (Option-cases (unmarshal f.payload)) [
        | inl bad ↦ rw (publish_from_bad unmarshal f es bad) later
        | inr (other, ok) ↦
            rw (publish_from_good unmarshal f es other ok)
              (ground (arith, later.0), there _ later.1)
      ]

  finish-marks :
      (e : Entry) (es db : List Entry) (on_mark : Bool) (now : ℕ) (payload : Payload)
      → In e es
      → In e db
      → unmarshal e.payload ≡ some payload
      → let x = finish on_mark now (publish_from unmarshal es) db in
        x.err ≡ none
        → In (record e { published_at = some now }) x.db
          × In (e.event_name, payload) x.sent
          × NotGiven e.id x.db
  finish-marks e es db true now payload i j good =
      let b = publish_from unmarshal es in
      let (marked, sent) = published_row e es payload i good in
      let (id, ids, some_sent) = some_published e.id b.published_ids marked in
      λ quiet. absurd (mark_failed_is_error b id ids now db some_sent quiet)
  finish-marks e es db false now payload i j good =
      let b = publish_from unmarshal es in
      let (marked, sent) = published_row e es payload i good in
      let (id, ids, some_sent) = some_published e.id b.published_ids marked in
      rw (finish_marks unmarshal b id ids now db some_sent) (λ _. (
        marked-In b.published_ids now e db marked j,
        sent,
        marked-NotGiven b.published_ids now e.id db marked,
      ))

  -- A run of `Process` that returns no error has sent the event of every row that its query gave and
  -- that decodes, and has set the time of publication of that row: no query of the table that it
  -- leaves, whatever its limit, gives a row with that id.
  pub process-marks :
      (p : Publisher) (faults : Faults) (now : ℕ) (db : List Entry) (e : Entry) (payload : Payload)
      → In e (get_unpublished p.batch_size db)
      → unmarshal e.payload ≡ some payload
      → let x = process unmarshal p faults now db in
        x.err ≡ none
        → In (record e { published_at = some now }) x.db
          × In (e.event_name, payload) x.sent
          × NotGiven e.id x.db
  unfolding process
  process-marks p faults now db e payload i good = elim (Bool-cases faults.on_query) [
    | inl fault ↦ rw fault (λ quiet. absurd (some-ne-none quiet))
    | inr ok ↦ rw ok (
        finish-marks e (get_unpublished p.batch_size db) db faults.on_mark now payload i
          (In-get_unpublished p.batch_size e db i) good)
  ]
