-- ===== src/Jobs/Queue/Rows.antt =====
-- What a change of some rows keeps.
use openlabels.Prelude.{
  ℕ, zero, suc, inl, inr, Bool, List, [], ◌∷◌, ◌++◌, map, if◌then◌else◌, Bool-cases, All,
}
use openlabels.Jobs.Queue.{Job}
use openlabels.Jobs.Queue.Cleanup.{reclaim_first}

module _ (P : Job → Type 0) (f : Job → Job) where
  pub map_if-All :
      (p : Job → Bool) (jobs : List Job)
      → ((j : Job) → P j → P (f j))
      → All P jobs
      → All P (map (λ j. if p j then f j else j) jobs)
  map_if-All p [] h v = tt
  map_if-All p (j ∷ js) h v = elim (Bool-cases (p j)) [
    | inl e ↦ rw e (h j v.0, map_if-All p js h v.1)
    | inr e ↦ rw e (v.0, map_if-All p js h v.1)
  ]

  pub reclaim_first-All :
      (p : Job → Bool) (n : ℕ) (jobs : List Job)
      → ((j : Job) → P j → P (f j))
      → All P jobs
      → All P (reclaim_first p f n jobs).0
  unfolding reclaim_first
  reclaim_first-All p n [] h v = tt
  reclaim_first-All p zero (j ∷ js) h v = v
  reclaim_first-All p (suc n) (j ∷ js) h v = elim (Bool-cases (p j)) [
    | inl e ↦ rw (reclaim_first, e) (h j v.0, reclaim_first-All p n js h v.1)
    | inr e ↦ rw (reclaim_first, e) (v.0, reclaim_first-All p (suc n) js h v.1)
  ]

pub append-All :
    (P : Job → Type 0) (jobs : List Job) (j : Job) → All P jobs → P j → All P (jobs ++ j ∷ [])
append-All P [] j v p = (p, tt)
append-All P (k ∷ ks) j v p = (v.0, append-All P ks j v.1 p)
