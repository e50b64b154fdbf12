-- ===== src/Events/Bus/Removal.antt =====
-- Which handler the end of a subscription removes.
use go_modulith_template.Prelude.{
  ◌≡◌, ◌≢◌, ◌∙◌, refl, sym, ap, inl, inr, ◌⊎◌, String, true, some, List, [], ◌∷◌, ◌++◌, All, lookup,
  lookup-insert_self, lookup-insert_ne, subst, Option-cases, nat_eq, nat_eq_iff, eq_string,
  Bool-cases, arith,
}
use go_modulith_template.Events.Bus.{
  Handler, Bus, or_none, handlers_of, subscribe, remove_first, unsubscribe,
}

-- No handler has that code.
abbrev pub HasOther : Handler → List Handler → Type 0
HasOther h = All (λ k. k.code ≢ h.code)

-- What is left: the old handlers, or the new one without the first old one of its code.
abbrev pub IsLeft : Handler → List Handler → List Handler → Type 0
IsLeft h hs left =
    (HasOther h hs × (left ≡ hs))
    ⊎ ((before : List Handler) × (k : Handler) × (after : List Handler) × (hs ≡ before ++ k ∷ after)
        × HasOther h before
        × (k.code ≡ h.code)
        × (left ≡ before ++ after ++ h ∷ []))

remove_first-IsLeft :
    (h : Handler) (hs : List Handler)
    → (left : List Handler) × (remove_first h (hs ++ h ∷ []) ≡ some left) × IsLeft h hs left
remove_first-IsLeft h [] =
    let same : nat_eq h.code h.code ≡ true = (nat_eq_iff h.code h.code).1 refl in
    ([], rw same refl, inl (tt, refl))
remove_first-IsLeft h (k ∷ hs) = elim (Bool-cases (nat_eq k.code h.code)) [
  | inl e ↦
      (hs ++ h ∷ [], rw e refl, inr ([], k, hs, refl, tt, (nat_eq_iff k.code h.code).0 e, refl))
  | inr e ↦
      let (left, found, is) = remove_first-IsLeft h hs in
      let other : k.code ≢ h.code = λ q. ground (arith, e, (nat_eq_iff k.code h.code).1 q) in
      (
        k ∷ left,
        rw (e, found) refl,
        elim is [
          | inl (others, same) ↦ inl ((other, others), ap (◌∷◌ k) same)
          | inr (before, j, after, split, others, code, same) ↦
              inr (k ∷ before, j, after, ap (◌∷◌ k) split, (other, others), code, ap (◌∷◌ k) same)
        ],
      )
]

subscribe_handlers :
    (name : String) (h : Handler) (b : Bus)
    → handlers_of name (subscribe name h b) ≡ handlers_of name b ++ h ∷ []
unfolding subscribe handlers_of
subscribe_handlers name h b =
    ap or_none (lookup-insert_self name (or_none (lookup name b.handlers) ++ h ∷ []) b.handlers)

-- The end of a subscription where a handler is removed.
removed_handlers :
    (name : String) (h : Handler) (b : Bus) (left : List Handler)
    → remove_first h (handlers_of name b) ≡ some left
    → handlers_of name (unsubscribe name h b) ≡ left
unfolding unsubscribe handlers_of
removed_handlers name h b left found =
    rw (found, unsubscribe) (ap or_none (lookup-insert_self name left b.handlers))

unsubscribe_other :
    (name other : String) (h : Handler) (b : Bus)
    → name ≢ other
    → handlers_of other (unsubscribe name h b) ≡ handlers_of other b
unfolding unsubscribe handlers_of
unsubscribe_other name other h b ne = elim (Option-cases (remove_first h (handlers_of name b))) [
  | inl e ↦ rw (e, unsubscribe) refl
  | inr (left, e) ↦
      rw (e, unsubscribe) (ap or_none (lookup-insert_ne name other left b.handlers ne))
]

subscribe_other :
    (name other : String) (h : Handler) (b : Bus)
    → name ≢ other
    → handlers_of other (subscribe name h b) ≡ handlers_of other b
unfolding subscribe handlers_of
subscribe_other name other h b ne =
    ap or_none (lookup-insert_ne name other (handlers_of name b ++ h ∷ []) b.handlers ne)

-- When a subscription ends that was the last to be made for its event, the handlers are the old ones
-- again if none of them shares its code; otherwise the first old handler with that code is gone and
-- the handler itself stays. The handlers of other events are kept.
pub unsubscribe-subscribe :
    (name other : String) (h : Handler) (b : Bus)
    → name ≢ other
    → let after = unsubscribe name h (subscribe name h b) in
      IsLeft h (handlers_of name b) (handlers_of name after)
      × (handlers_of other after ≡ handlers_of other b)
unsubscribe-subscribe name other h b ne =
    let (left, found, is) = remove_first-IsLeft h (handlers_of name b) in
    let after : handlers_of name (unsubscribe name h (subscribe name h b)) ≡ left =
      removed_handlers name h (subscribe name h b) left
        (ap (remove_first h) (subscribe_handlers name h b) ∙ found) in
    (
      subst (IsLeft h (handlers_of name b)) (sym after) is,
      unsubscribe_other name other h (subscribe name h b) ne ∙ subscribe_other name other h b ne,
    )
