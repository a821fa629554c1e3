-- ===== src/Script/Completions.antt =====
-- The completions of all scripts, gathered without repetition.
use frame_mc.Prelude.{
  ℕ, ◌≡◌, arith, refl, List, [], ◌∷◌, ◌++◌, Bool, true, false, not, ◌||◌, ◌&&◌, none, some,
}
use frame_mc.Prelude.{Option-cases, inl, inr, list_eq, list_eq_sound, list_eq_refl}
use frame_mc.Wire.{ascii}
use frame_mc.Script.{
  Array, Shared, Rhai, string, nil, item, unit, boolean, integer, array, object, other,
}
use frame_mc.Script.Events.{PlayerTabCompleteEvent, tab_complete_map}
use frame_mc.Script.Hooks.{
  contains, as_array, answer, push_new, push_items, tab_loop, eval_tab_complete,
}

-- No text stands twice.
unfoldable pub is_distinct : List (List ℕ) → Bool
is_distinct [] = true
is_distinct (s ∷ rest) = not (contains rest s) && is_distinct rest

-- The texts of an array hold `s`.
pub offers : Array → List ℕ → Bool
offers nil s = false
offers (item (string t) items) s = list_eq t s || offers items s
offers (item _ items) s = offers items s

pub contains-append :
    (xs ys : List (List ℕ)) (s : List ℕ) → contains (xs ++ ys) s ≡ (contains xs s || contains ys s)
contains-append [] ys s = refl
contains-append (x ∷ xs) ys s = ground (arith, contains-append xs ys s)

is_distinct-snoc :
    (xs : List (List ℕ)) (s : List ℕ)
    → is_distinct xs ≡ true
    → contains xs s ≡ false
    → is_distinct (xs ++ (s ∷ [])) ≡ true
unfolding is_distinct
is_distinct-snoc [] s h k = refl
is_distinct-snoc (x ∷ xs) s h k = ground (
  arith,
  contains-append xs (s ∷ []) x,
  list_eq_sound s x,
  list_eq_refl x,
  list_eq_refl s,
  is_distinct-snoc xs s,
)

push_new-is_distinct :
    (results : List (List ℕ)) (s : List ℕ)
    → is_distinct results ≡ true
    → is_distinct (push_new results s) ≡ true
unfolding push_new
push_new-is_distinct results s h = ground (arith, is_distinct-snoc results s)

contains-push_new :
    (results : List (List ℕ)) (s t : List ℕ)
    → contains (push_new results s) t ≡ (contains results t || list_eq s t)
unfolding push_new
contains-push_new results s t =
    ground (arith, contains-append results (s ∷ []) t, list_eq_sound s t, list_eq_refl s)

push_items-is_distinct :
    (results : List (List ℕ)) (items : Array)
    → is_distinct results ≡ true
    → is_distinct (push_items results items) ≡ true
unfolding push_items
push_items-is_distinct results nil h = h
push_items-is_distinct results (item (string s) items) h =
    push_items-is_distinct (push_new results s) items (push_new-is_distinct results s h)
push_items-is_distinct results (item unit items) h = push_items-is_distinct results items h
push_items-is_distinct results (item (boolean b) items) h = push_items-is_distinct results items h
push_items-is_distinct results (item (integer n) items) h = push_items-is_distinct results items h
push_items-is_distinct results (item (array a) items) h = push_items-is_distinct results items h
push_items-is_distinct results (item (object m) items) h = push_items-is_distinct results items h
push_items-is_distinct results (item other items) h = push_items-is_distinct results items h

contains-push_items :
    (results : List (List ℕ)) (items : Array) (t : List ℕ)
    → contains (push_items results items) t ≡ (contains results t || offers items t)
unfolding push_items offers
contains-push_items results nil t = ground arith
contains-push_items results (item (string s) items) t =
    ground (arith, contains-push_items (push_new results s) items t, contains-push_new results s t)
contains-push_items results (item unit items) t = contains-push_items results items t
contains-push_items results (item (boolean b) items) t = contains-push_items results items t
contains-push_items results (item (integer n) items) t = contains-push_items results items t
contains-push_items results (item (array a) items) t = contains-push_items results items t
contains-push_items results (item (object m) items) t = contains-push_items results items t
contains-push_items results (item other items) t = contains-push_items results items t

module _ (rhai : Rhai) (event : PlayerTabCompleteEvent) where
  open rhai use {Ast}

  -- Some script of the list answers with an array that holds `t`.
  pub offered : List Ast → Shared → List ℕ → Bool
  offered [] shared t = false
  offered (ast ∷ scripts) shared t =
      let (result, after) =
        answer rhai (ascii "on_tab_complete") (tab_complete_map event) ast shared in
      elim (as_array result) [
        | none ↦ offered scripts after t
        | some arr ↦ offers arr t || offered scripts after t
      ]

  tab_loop-is_distinct :
      (scripts : List Ast) (results : List (List ℕ)) (shared : Shared)
      → is_distinct results ≡ true
      → is_distinct (tab_loop rhai event scripts results shared).0 ≡ true
  unfolding tab_loop
  tab_loop-is_distinct [] results shared h = h
  tab_loop-is_distinct (ast ∷ scripts) results shared h =
      let res = answer rhai (ascii "on_tab_complete") (tab_complete_map event) ast shared in
      elim (Option-cases (as_array res.0)) [
        | inl e ↦ ground (arith, tab_loop-is_distinct scripts results res.1)
        | inr (arr, e) ↦ ground (
          arith,
          push_items-is_distinct results arr,
          tab_loop-is_distinct scripts (push_items results arr) res.1,
        )
      ]

  contains-tab_loop :
      (scripts : List Ast) (results : List (List ℕ)) (shared : Shared) (t : List ℕ)
      → contains (tab_loop rhai event scripts results shared).0 t
        ≡ (contains results t || offered scripts shared t)
  unfolding tab_loop offered
  contains-tab_loop [] results shared t = ground arith
  contains-tab_loop (ast ∷ scripts) results shared t =
      let res = answer rhai (ascii "on_tab_complete") (tab_complete_map event) ast shared in
      elim (Option-cases (as_array res.0)) [
        | inl e ↦ ground (arith, contains-tab_loop scripts results res.1 t)
        | inr (arr, e) ↦ ground (
          arith,
          contains-push_items results arr t,
          contains-tab_loop scripts (push_items results arr) res.1 t,
        )
      ]

  -- The completions hold no text twice, and hold exactly the texts that some script's array holds.
  pub eval_tab_complete_gathers :
      (plugins : List Ast) (active : Ast) (shared : Shared) (t : List ℕ)
      → (is_distinct (eval_tab_complete rhai plugins active event shared).0 ≡ true)
        × (contains (eval_tab_complete rhai plugins active event shared).0 t
            ≡ offered (plugins ++ (active ∷ [])) shared t)
  unfolding eval_tab_complete is_distinct
  eval_tab_complete_gathers plugins active shared t = (
    tab_loop-is_distinct (plugins ++ (active ∷ [])) [] shared refl,
    contains-tab_loop (plugins ++ (active ∷ [])) [] shared t,
  )
