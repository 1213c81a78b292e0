-- ===== src/Knowledge/Outcomes.antt =====
-- src/copilot/knowledge/store.mjs, lines 968 to 1066: what follows from a verification that passes.
use babypark_integration.Base.{
  ◌≡◌, refl, inl, inr, Bool, true, false, List, [], ◌∷◌, some, String, ok, err, Result, ◌>>=◌, ◌>>◌,
  fail_if, >>=-eq-ok, str_eq, arith, Bool-cases, eq_iff, subst,
}
use babypark_integration.Knowledge.Records.{State, Revision, Ledger, Error, Services}
use babypark_integration.Knowledge.Ledger.{
  find, events_of, revision_history_state, check_histories, verify_ledger,
}

pub guard-ok {ℓ} :
    {A : Type ℓ} (b : Bool) (e : Error) (k : Result Error A) {a : A}
    → (fail_if b e >> k) ≡ ok a
    → (b ≡ false) × (k ≡ ok a)
unfolding ◌>>=◌ ◌>>◌ fail_if
guard-ok true e k h = absurd (ground arith)
guard-ok false e k h = (refl, h)

pub then-ok {ℓ} :
    {A : Type ℓ} (m : Result Error (Unit {0})) (k : Result Error A) {a : A}
    → (m >> k) ≡ ok a
    → k ≡ ok a
unfolding ◌>>=◌ ◌>>◌
then-ok (ok u) k h = h
then-ok (err e) k h = absurd (ground arith)

module _ (s : Services) (l : Ledger) where
  same-history :
      (x r : Revision) (id : String) {st : State}
      → revision_history_state s l x (events_of x.revision_id l.events) ≡ ok st
      → str_eq x.revision_id id ≡ true
      → x ≡ r
      → revision_history_state s l r (events_of id l.events) ≡ ok st
  same-history x r id {st} k b p =
      let same : x.revision_id ≡ id = (eq_iff x.revision_id id).0 b in
      subst (λ y. revision_history_state s l y (events_of id l.events) ≡ ok st) p
        (subst (λ j. revision_history_state s l x (events_of j l.events) ≡ ok st) same k)

  -- The revision that a search finds is among those that the last loop checks.
  histories-find :
      (id : String) (rs : List Revision) (r : Revision)
      → check_histories s l rs ≡ ok tt
      → find id rs ≡ some r
      → (st : State) × (revision_history_state s l r (events_of id l.events) ≡ ok st)
  unfolding check_histories find
  histories-find id [] r h f = absurd (ground arith)
  histories-find id (x ∷ rs) r h f =
      let (st, k, m) = >>=-eq-ok _ _ h in
      elim (Bool-cases (str_eq x.revision_id id)) [
        | inl b ↦ (st, same-history x r id k b (ground arith))
        | inr b ↦ histories-find id rs r m (ground arith)
      ]

  pub verified-histories : verify_ledger s l ≡ ok tt → check_histories s l l.revisions ≡ ok tt
  unfolding verify_ledger
  verified-histories h = then-ok _ _ (then-ok _ _ (then-ok _ _ h))

  pub verified-history :
      (id : String) (r : Revision)
      → verify_ledger s l ≡ ok tt
      → find id l.revisions ≡ some r
      → (st : State) × (revision_history_state s l r (events_of id l.events) ≡ ok st)
  verified-history id r h f = histories-find id l.revisions r (verified-histories h) f
