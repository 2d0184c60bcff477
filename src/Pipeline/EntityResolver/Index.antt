-- ===== src/Pipeline/EntityResolver/Index.antt =====
-- The indexes of mentions by text, anchor and word.
use openlabels.Prelude.{
  ℕ, zero, suc, ◌+◌, ◌≡◌, refl, sym, subst, inl, inr, true, some, List, [], ◌∷◌, ◌++◌, arith,
  Bool-cases, some_inj, get_elem?, All, Any,
}
use openlabels.Prelude.Text.{
  Str, str_eq, str_eq→eq, str_eq_refl, Dict, lookup, get_or, put, get_or-put, contains,
}
use openlabels.Pipeline.EntityResolver.{Mention, append_to, append_all, index_from}

module _ (P : ℕ → Type 0) where
  All-snoc : (xs : List ℕ) (x : ℕ) → All P xs → P x → All P (xs ++ x ∷ [])
  All-snoc [] x h p = (p, tt)
  All-snoc (y ∷ ys) x h p = (h.0, All-snoc ys x h.1 p)

  Any-append_left : (xs ys : List ℕ) → Any P xs → Any P (xs ++ ys)
  Any-append_left [] ys h = absurd h
  Any-append_left (x ∷ xs) ys (inl h) = inl h
  Any-append_left (x ∷ xs) ys (inr h) = inr (Any-append_left xs ys h)

  Any-append_right : (xs ys : List ℕ) → Any P ys → Any P (xs ++ ys)
  Any-append_right [] ys h = h
  Any-append_right (x ∷ xs) ys h = inr (Any-append_right xs ys h)

module _ (P : ℕ → Str → Type 0) where
  -- Every number of an entry goes with its key.
  abbrev pub IsSound : Dict (List ℕ) → Type 0
  IsSound d = All (λ e. All (λ i. P i e.0) e.1) d

  pub get_or-IsSound : (d : Dict (List ℕ)) (k : Str) → IsSound d → All (λ i. P i k) (get_or d k [])
  unfolding get_or lookup
  get_or-IsSound [] k s = tt
  get_or-IsSound ((j, v) ∷ d) k s = elim (Bool-cases (str_eq j k)) [
    | inl e ↦ rw (get_or, lookup, e) (subst (λ w. All (λ i. P i w) v) (str_eq→eq j k e) s.0)
    | inr e ↦ rw (get_or, lookup, e) (get_or-IsSound d k s.1)
  ]

  put-IsSound :
      (d : Dict (List ℕ)) (k : Str) (v : List ℕ)
      → IsSound d
      → All (λ i. P i k) v
      → IsSound (put k v d)
  unfolding put
  put-IsSound [] k v s h = (h, tt)
  put-IsSound ((j, w) ∷ d) k v s h = elim (Bool-cases (str_eq j k)) [
    | inl e ↦ rw (put, e) (subst (λ u. All (λ i. P i u) v) (sym (str_eq→eq j k e)) h, s.1)
    | inr e ↦ rw (put, e) (s.0, put-IsSound d k v s.1 h)
  ]

  append_to-IsSound :
      (d : Dict (List ℕ)) (k : Str) (i : ℕ) → IsSound d → P i k → IsSound (append_to k i d)
  unfolding append_to
  append_to-IsSound d k i s h =
      put-IsSound d k (get_or d k [] ++ i ∷ []) s
        (All-snoc (λ i. P i k) (get_or d k []) i (get_or-IsSound d k s) h)

  append_all-IsSound :
      (ks : List Str) (i : ℕ) (d : Dict (List ℕ))
      → IsSound d
      → ((k : Str) → contains ks k ≡ true → P i k)
      → IsSound (append_all ks i d)
  unfolding contains
  append_all-IsSound [] i d s h = s
  append_all-IsSound (k ∷ ks) i d s h =
      append_all-IsSound ks i (append_to k i d)
        (append_to-IsSound d k i s (h k (rw (str_eq_refl k) refl))) (λ j e. h j (ground arith))

  -- In an index each number goes with its key.
  pub index_from-IsSound :
      (keys : Mention → List Str) (i : ℕ) (ms : List Mention) (d : Dict (List ℕ))
      → IsSound d
      → ((j : ℕ) (m : Mention) (k : Str)
          → get_elem? ms j ≡ some m
          → contains (keys m) k ≡ true
          → P (i + j) k)
      → IsSound (index_from keys i ms d)
  index_from-IsSound keys i [] d s h = s
  index_from-IsSound keys i (m ∷ ms) d s h =
      index_from-IsSound keys (suc i) ms (append_all (keys m) i d)
        (append_all-IsSound (keys m) i d s
          (λ k e. subst (λ n. P n k) (omega arith) (h 0 m k refl e)))
        (λ j n k e f. subst (λ n. P n k) (omega arith) (h (suc j) n k e f))

-- A number is in the list of a key.
abbrev pub IsIn : ℕ → Str → Dict (List ℕ) → Type 0
IsIn i k d = Any (λ j. j ≡ i) (get_or d k [])

append_to-IsIn : (i : ℕ) (k : Str) (d : Dict (List ℕ)) → IsIn i k (append_to k i d)
unfolding append_to
append_to-IsIn i k d =
    rw (get_or-put k k (get_or d k [] ++ i ∷ []) [] d, str_eq_refl k)
      (Any-append_right (λ j. j ≡ i) (get_or d k []) (i ∷ []) (inl refl))

append_to-IsIn_old :
    (i j : ℕ) (k l : Str) (d : Dict (List ℕ)) → IsIn i k d → IsIn i k (append_to l j d)
unfolding append_to
append_to-IsIn_old i j k l d h = elim (Bool-cases (str_eq l k)) [
  | inl e ↦
      rw (get_or-put l k (get_or d l [] ++ j ∷ []) [] d, e)
        (Any-append_left (λ x. x ≡ i) (get_or d l []) (j ∷ [])
          (subst (λ w. IsIn i w d) (sym (str_eq→eq l k e)) h))
  | inr e ↦ rw (get_or-put l k (get_or d l [] ++ j ∷ []) [] d, e) h
]

append_all-IsIn_old :
    (i j : ℕ) (k : Str) (ks : List Str) (d : Dict (List ℕ))
    → IsIn i k d
    → IsIn i k (append_all ks j d)
append_all-IsIn_old i j k [] d h = h
append_all-IsIn_old i j k (l ∷ ks) d h =
    append_all-IsIn_old i j k ks (append_to l j d) (append_to-IsIn_old i j k l d h)

append_all-IsIn :
    (i : ℕ) (k : Str) (ks : List Str) (d : Dict (List ℕ))
    → contains ks k ≡ true
    → IsIn i k (append_all ks i d)
unfolding contains
append_all-IsIn i k [] d h = absurd (cc)
append_all-IsIn i k (l ∷ ks) d h = elim (Bool-cases (str_eq l k)) [
  | inl e ↦
      append_all-IsIn_old i i k ks (append_to l i d)
        (subst (λ w. IsIn i w (append_to l i d)) (str_eq→eq l k e) (append_to-IsIn i l d))
  | inr e ↦ append_all-IsIn i k ks (append_to l i d) (rw e at h)
]

index_from-IsIn_old :
    (keys : Mention → List Str) (i j : ℕ) (k : Str) (ms : List Mention) (d : Dict (List ℕ))
    → IsIn j k d
    → IsIn j k (index_from keys i ms d)
index_from-IsIn_old keys i j k [] d h = h
index_from-IsIn_old keys i j k (m ∷ ms) d h =
    index_from-IsIn_old keys (suc i) j k ms (append_all (keys m) i d)
      (append_all-IsIn_old j i k (keys m) d h)

-- In an index each mention is under each of its keys.
pub index_from-IsIn :
    (keys : Mention → List Str) (i j : ℕ) (k : Str) (ms : List Mention) (d : Dict (List ℕ))
    (m : Mention)
    → get_elem? ms j ≡ some m
    → contains (keys m) k ≡ true
    → IsIn (i + j) k (index_from keys i ms d)
index_from-IsIn keys i j k [] d m e h = absurd (cc)
index_from-IsIn keys i zero k (n ∷ ms) d m e h =
    let same : contains (keys n) k ≡ true = cc (some_inj e) in
    subst (λ w. IsIn w k (index_from keys (suc i) ms (append_all (keys n) i d))) (omega arith)
      (index_from-IsIn_old keys (suc i) i k ms (append_all (keys n) i d)
        (append_all-IsIn i k (keys n) d same))
index_from-IsIn keys i (suc j) k (n ∷ ms) d m e h =
    subst (λ w. IsIn w k (index_from keys (suc i) ms (append_all (keys n) i d))) (omega arith)
      (index_from-IsIn keys (suc i) j k ms (append_all (keys n) i d) m e h)

-- What holds of every entry holds of the one of a key that has a number.
pub entry_lem :
    (Q : Str × List ℕ → Type 0) (d : Dict (List ℕ)) (k : Str) (i : ℕ)
    → All Q d
    → IsIn i k d
    → (lookup k d ≡ some (get_or d k [])) × Q (k, get_or d k [])
unfolding get_or lookup
entry_lem Q [] k i a h = absurd h
entry_lem Q ((j, v) ∷ d) k i a h = elim (Bool-cases (str_eq j k)) [
  | inl e ↦ rw (get_or, lookup, e) (refl, subst (λ w. Q (w, v)) (str_eq→eq j k e) a.0)
  | inr e ↦ rw (get_or, lookup, e) (entry_lem Q d k i a.1 (rw (get_or, lookup, e) at h))
]
