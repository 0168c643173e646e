-- ===== src/Feasibility/AugmentLoop.antt =====
-- The augmenting-path search, whose depth is enough, does what its answer says.
use reparto_docente_m.Prelude.{
  ℕ, zero, suc, Bool, true, false, ◌+◌, ◌<◌, ◌==◌, Option, none, some, List, [], ◌∷◌, ◌≡◌, refl,
  sym, ap, ◌∙◌, inl, inr, contains, length, arith, Bool-cases, In, IsDistinct, pigeonhole, ==_iff,
}
use mathlib.Core.Option.{some-injective}
use reparto_docente_m.Feasibility.Matching.{
  Matches, match_to, Augment, matched, unmatched, out_of_fuel, augment_loop, augment,
}
use reparto_docente_m.Feasibility.Augment.{
  Owns, IsReady, Rematched, Blocked, Augmented, match_to-Rematched,
}
use reparto_docente_m.Feasibility.AugmentVisited.{Rematched-widen}

module _ (can : ℕ → ℕ → Bool) (keys : List ℕ) where
  -- A call on a slot, whatever has been visited, that has depth enough left.
  abbrev Deep : ℕ → (ℕ → Matches → List ℕ → Augment) → Type 0
  Deep fuel again =
      (t : ℕ) (m : Matches) (W : List ℕ)
      → IsReady can keys W t m
      → IsDistinct W
      → ((q : ℕ) → In W q → In keys q)
      → length keys < fuel + length W
      → Augmented can keys W keys t m (again t m W)

  -- nothing is left to try
  ended-Blocked :
      (V : List ℕ) (slot : ℕ) (m : Matches)
      → IsDistinct V
      → ((q : ℕ) → In V q → In keys q)
      → Blocked can keys V [] slot m V
  ended-Blocked V slot m d w = record {
    grown = λ q h. h;
    distinct = d;
    within = w;
    closed = λ q h. ground (arith, h);
    stuck = λ q h. inl h;
  }

  -- A participant that is no candidate, or has been visited, changes nothing.
  passed-Augmented :
      (V ps : List ℕ) (slot p : ℕ) (m : Matches) (out : Augment)
      → (can slot p ≡ true → In V p)
      → Augmented can keys V ps slot m out
      → Augmented can keys V (p ∷ ps) slot m out
  passed-Augmented V ps slot p m (matched m' W) h r = r
  passed-Augmented V ps slot p m out_of_fuel h r = elim r [ ]
  passed-Augmented V ps slot p m (unmatched W) h b = record {
    grown = b.grown;
    distinct = b.distinct;
    within = b.within;
    closed = λ q i c. elim (Bool-cases (q == p)) [
      | inl e ↦ b.grown q (rw ((==_iff q p).0 e) (h (rw (← (==_iff q p).0 e) c)))
      | inr e ↦ b.closed q (ground (arith, i, e)) c
    ];
    stuck = b.stuck;
  }

  module _ (V : List ℕ) (slot p previous : ℕ) (m : Matches) (ready : IsReady can keys V slot m)
      (new : contains V p ≡ false) (had : m p ≡ some previous) where
    deeper-IsReady : IsReady can keys (p ∷ V) previous m
    deeper-IsReady = record {
      sound = ready.sound;
      injective = λ q r t qv rv. ready.injective q r t (ground (arith, qv)) (ground (arith, rv));
      fresh = λ q out e.
          ground (arith, out, ready.injective q p previous (ground (arith, out)) new e had);
    }

    -- The deeper call has found its slot another participant.
    given_up-Rematched :
        (m1 : Matches)
        → can slot p ≡ true
        → In keys p
        → Rematched can keys (p ∷ V) previous m m1
        → Rematched can keys V slot m (match_to m1 p slot)
    given_up-Rematched m1 fits known r =
        match_to-Rematched can keys V slot p m m1 ready new fits known r.sound
          (λ q h. r.kept q (ground (arith, h))) r.injective owns covers
      where
        owns : (t : ℕ) → Owns m1 (p ∷ V) t → Owns m V t
        owns t o = elim (r.owns t o) [
          | inl (q, out, e) ↦ (q, ground (arith, out), e)
          | inr e ↦ (p, new, rw e had)
        ]

        covers : (t : ℕ) → Owns m V t → Owns m1 (p ∷ V) t
        covers t (q, out, e) = elim (Bool-cases (q == p)) [
          | inl same ↦ rw (taken same) r.takes
          | inr ne ↦ r.covers t (q, ground (arith, ne, out), e)
        ]
          where
            taken : (q == p) ≡ true → t ≡ previous
            taken same = some-injective _ _ (sym e ∙ ap m ((==_iff q p).0 same) ∙ had)

    -- The deeper call has failed, and the loop goes on with what has been visited.
    went_on-Augmented :
        (W ps : List ℕ) (out : Augment)
        → Blocked can keys (p ∷ V) keys previous m W
        → Augmented can keys W ps slot m out
        → Augmented can keys V (p ∷ ps) slot m out
    went_on-Augmented W ps (matched m' W') b r =
        Rematched-widen can keys V W slot m m' (λ q h. b.grown q (ground (arith, h))) ready r
    went_on-Augmented W ps out_of_fuel b r = elim r [ ]
    went_on-Augmented W ps (unmatched W') b c = record {
      grown = λ q h. c.grown q (b.grown q (ground (arith, h)));
      distinct = c.distinct;
      within = c.within;
      closed = λ q i fits. elim (Bool-cases (q == p)) [
        | inl e ↦ c.grown q (b.grown q (ground (arith, e)))
        | inr e ↦ c.closed q (ground (arith, i, e)) fits
      ];
      stuck = λ q i. elim (c.stuck q i) [
        | inl old ↦ elim (b.stuck q old) [
          | inl entered ↦ elim (Bool-cases (q == p)) [
            | inl e ↦
                inr (previous, rw ((==_iff q p).0 e) had, λ r k fits. c.grown r (b.closed r k fits))
            | inr e ↦ inl (ground (arith, entered, e))
          ]
          | inr (t, e, all_in) ↦ inr (t, e, λ r k fits. c.grown r (all_in r k fits))
        ]
        | inr s ↦ inr s
      ];
    }

  -- The loop over these participants does its work, whatever has been visited.
  abbrev Loops : ℕ → (ℕ → Matches → List ℕ → Augment) → ℕ → List ℕ → Matches → Type 0
  Loops fuel again slot ps m =
      (V : List ℕ)
      → IsReady can keys V slot m
      → IsDistinct V
      → ((q : ℕ) → In V q → In keys q)
      → length keys < suc fuel + length V
      → Augmented can keys V ps slot m (augment_loop can keys again slot ps m V)

  IsReady-grown :
      (V W : List ℕ) (slot : ℕ) (m : Matches)
      → ((q : ℕ) → In V q → In W q)
      → IsReady can keys V slot m
      → IsReady can keys W slot m
  IsReady-grown V W slot m grown ready = record {
    sound = ready.sound;
    injective = λ q r t qv rv.
        ready.injective q r t (ground (arith, grown q, qv)) (ground (arith, grown r, rv));
    fresh = λ q out. ready.fresh q (ground (arith, grown q, out));
  }

  -- one participant of the loop
  module _ (slot fuel : ℕ) (again : ℕ → Matches → List ℕ → Augment) (deep : Deep fuel again) (p : ℕ)
      (ps : List ℕ) (m : Matches) (known : In keys p) (rest : Loops fuel again slot ps m) where
    tried-Augmented :
        (V : List ℕ)
        → IsReady can keys V slot m
        → IsDistinct V
        → ((q : ℕ) → In V q → In keys q)
        → length keys < suc fuel + length V
        → can slot p ≡ true
        → contains V p ≡ false
        → (o : Option ℕ) → m p ≡ o
        → Augmented can keys V (p ∷ ps) slot m (elim o [
          | none ↦ matched (match_to m p slot) (p ∷ V)
          | some previous ↦ elim (again previous m (p ∷ V)) [
            | matched m' V' ↦ matched (match_to m' p slot) V'
            | unmatched V' ↦ augment_loop can keys again slot ps m V'
            | out_of_fuel ↦ out_of_fuel
          ]
        ])
    tried-Augmented V ready d w room fits new none e =
        match_to-Rematched can keys V slot p m m ready new fits known ready.sound (λ q h. refl)
          (λ q r t qv rv. ready.injective q r t (ground (arith, qv)) (ground (arith, rv)))
          (λ t o. (o.0, ground (arith, o.1), o.2)) (λ t o. (o.0, ground (arith, o.1, o.2, e), o.2))
    tried-Augmented V ready d w room fits new (some previous) e = after (again previous m (p ∷ V)) (
        deep previous m (p ∷ V) (deeper-IsReady V slot p previous m ready new e) (new, d) entered
          (omega (arith, room)))
      where
        entered : (q : ℕ) → In (p ∷ V) q → In keys q
        entered q h = elim (Bool-cases (q == p)) [
          | inl e ↦ rw ((==_iff q p).0 e) known
          | inr e ↦ w q (ground (arith, h, e))
        ]

        after :
            (out : Augment)
            → Augmented can keys (p ∷ V) keys previous m out
            → Augmented can keys V (p ∷ ps) slot m (elim out [
              | matched m' V' ↦ matched (match_to m' p slot) V'
              | unmatched V' ↦ augment_loop can keys again slot ps m V'
              | out_of_fuel ↦ out_of_fuel
            ])
        after (matched m' V') r = given_up-Rematched V slot p previous m ready new e m' fits known r
        after out_of_fuel r = elim r [ ]
        after (unmatched W) b = went_on-Augmented V slot p previous m ready new e W ps _ b (
            rest W (IsReady-grown V W slot m grown ready) b.distinct b.within
              (omega (arith, room, pigeonhole V W d grown)))
          where
            grown : (q : ℕ) → In V q → In W q
            grown q h = b.grown q (ground (arith, h))

    step-Loops : Loops fuel again slot (p ∷ ps) m
    unfolding augment_loop
    step-Loops V ready d w room = elim (Bool-cases (can slot p)) [
      | inr unfit ↦
          rw unfit (
            passed-Augmented V ps slot p m _ (λ c. ground (arith, c, unfit))
              (rest V ready d w room))
      | inl fits ↦ elim (Bool-cases (contains V p)) [
        | inl old ↦
            rw (fits, old) (passed-Augmented V ps slot p m _ (λ c. old) (rest V ready d w room))
        | inr new ↦ rw (fits, new) (tried-Augmented V ready d w room fits new (m p) refl)
      ]
    ]

  augment_loop-Loops :
      (slot fuel : ℕ) (again : ℕ → Matches → List ℕ → Augment)
      → Deep fuel again
      → (ps : List ℕ) (m : Matches) → ((q : ℕ) → In ps q → In keys q)
      → Loops fuel again slot ps m
  unfolding augment_loop
  augment_loop-Loops slot fuel again deep [] m known V ready d w room = ended-Blocked V slot m d w
  augment_loop-Loops slot fuel again deep (p ∷ ps) m known V ready d w room =
      step-Loops slot fuel again deep p ps m (known p (ground arith))
        (augment_loop-Loops slot fuel again deep ps m (λ q h. known q (ground (arith, h)))) V ready
        d w room

  -- A call with depth enough left ends, and has done what its answer says.
  pub augment-Deep : (fuel : ℕ) → Deep fuel (augment can keys fuel)
  unfolding augment
  augment-Deep zero t m W ready d w room = omega (arith, room, pigeonhole W keys d w)
  augment-Deep (suc fuel) t m W ready d w room =
      augment_loop-Loops t fuel (augment can keys fuel) (augment-Deep fuel) keys m (λ q h. h) W
        ready d w room
