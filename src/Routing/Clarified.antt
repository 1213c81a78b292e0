-- ===== src/Routing/Clarified.antt =====
-- src/copilot/first-line-routing-planner.mjs, lines 289 to 308: the guard of a confirmed clarification.
use babypark_integration.Base.{
  ℕ, ◌≡◌, ◌≢◌, ◌==◌, ==_iff, eq_iff, str_eq, &&-eq-true, ok-injective, refl, inl, inr, true, Option,
  none, some, List, [], ◌∷◌, arith, Bool-cases, ok,
}
use babypark_integration.Routing.Snapshot.{
  Snapshot, Action, ActiveEpisode, ActionType, clarify, ActionState, confirmed,
}
use babypark_integration.Routing.Planner.{basis_of, is_basis, is_filled, is_clarify, is_confirmed}

-- What makes an action the confirmed clarification of an episode: the episode is active and was prompted
-- once, and the action is a confirmed clarification for it and the stream, with a basis.
pub record IsClarified (s : Snapshot) (episode : ActiveEpisode) (a : Action) : Type 0 where
  pub active : episode.is_active ≡ true
  pub prompted : episode.clarification_prompts_sent ≡ 1
  pub clarification : a.action_type ≡ clarify
  pub sent : a.state ≡ confirmed
  pub same_stream : a.stream_id ≡ s.stream.stream_id
  pub same_episode : a.episode_id ≡ episode.episode_id
  pub has_basis : a.basis_event_seqs ≢ []

clarify_eq : (t : ActionType) → is_clarify t ≡ true → t ≡ clarify
clarify_eq clarify h = refl
clarify_eq t h = absurd (ground (arith, h))

confirmed_eq : (t : ActionState) → is_confirmed t ≡ true → t ≡ confirmed
confirmed_eq confirmed h = refl
confirmed_eq t h = absurd (ground (arith, h))

is_filled-ne-nil : (ns : List ℕ) → is_filled ns ≡ true → ns ≢ []
is_filled-ne-nil [] h = absurd (ground (arith, h))
is_filled-ne-nil (n ∷ ns) h = λ e. absurd (ground (arith, e))

is_basis-IsClarified :
    (s : Snapshot) (episode : ActiveEpisode) (a : Action)
    → is_basis s episode a ≡ true
    → IsClarified s episode a
unfolding is_basis
is_basis-IsClarified s episode a h =
    let (h1, basis) = &&-eq-true _ (is_filled a.basis_event_seqs) h in
    let (h2, same) = &&-eq-true _ (str_eq a.episode_id episode.episode_id) h1 in
    let (h3, stream) = &&-eq-true _ (str_eq a.stream_id s.stream.stream_id) h2 in
    let (h4, state) = &&-eq-true _ (is_confirmed a.state) h3 in
    let (h5, type) = &&-eq-true _ (is_clarify a.action_type) h4 in
    let (open_episode, once) =
      &&-eq-true episode.is_active (episode.clarification_prompts_sent == 1) h5 in
    record {
      active = open_episode;
      prompted = (==_iff episode.clarification_prompts_sent 1).0 once;
      clarification = clarify_eq a.action_type type;
      sent = confirmed_eq a.state state;
      same_stream = (eq_iff a.stream_id s.stream.stream_id).0 stream;
      same_episode = (eq_iff a.episode_id episode.episode_id).0 same;
      has_basis = is_filled-ne-nil a.basis_event_seqs basis;
    }

-- What `basis_of` accepts.
pub basis_of-eq-ok :
    (s : Snapshot) (o : Option ActiveEpisode) (c : Option Action) {basis : List ℕ}
    → basis_of s o c ≡ ok basis
    → (episode : ActiveEpisode) × (a : Action) × (o ≡ some episode)
      × (c ≡ some a)
      × IsClarified s episode a
      × (a.basis_event_seqs ≡ basis)
basis_of-eq-ok s none c h = absurd (ground (arith, h))
basis_of-eq-ok s (some episode) none h = absurd (ground (arith, h))
basis_of-eq-ok s (some episode) (some a) h = elim (Bool-cases (is_basis s episode a)) [
  | inl b ↦ (episode, a, refl, refl, is_basis-IsClarified s episode a b, ok-injective (rw b at h))
  | inr b ↦ absurd (ground (arith, h, b))
]
