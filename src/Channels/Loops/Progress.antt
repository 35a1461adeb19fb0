-- ===== src/Channels/Loops/Progress.antt =====
-- How a StreamChannelOf in api/streams.go that has a stream or can be given one comes closer to having
-- sent all its messages.
use clouditor.Prelude.{
  false, ℕ, suc, ◌+◌, ◌*◌, ◌<◌, ◌≡◌, refl, sym, ap, ◌∙◌, true, Option, none, some, List, [], ◌∷◌,
  ◌++◌, ◌⊎◌, inl, inr, length, length-append, arith,
}
use clouditor.Channels.Loops.{
  Runtime, Step, accepts, fetches, delivers, fails, puts_back, looks_up, finds_alive, finds_dead,
  restart_refused, restart_fails, restarts, overwritten, panics, Steps, done, next,
}
use clouditor.Channels.Loops.Multisets.{fetched}

pub nonempty : {A : Type 0} (x : A) (before after : List A) → ¬ (before ++ x ∷ after ≡ [])
nonempty x [] after h = absurd (cc)
nonempty x (y ∷ before) after h = absurd (cc)

nil_or_cons :
    {A : Type 0} (xs : List A) → (xs ≡ []) ⊎ ((x : A) × ((rest : List A) × (xs ≡ x ∷ rest)))
nil_or_cons [] = inl refl
nil_or_cons (x ∷ rest) = inr (x, (rest, refl))

module _ {M : Type 0} where
  -- No message is on its way to the stream.
  unfoldable pub Drained : Runtime M → Type 0
  unfolding fetched
  Drained s = (s.queue ≡ []) × ((fetched s.loops ≡ []) × (s.returning ≡ []))

  -- A channel without a send loop is known to be dead.
  unfoldable pub Alive : Runtime M → Type 0
  Alive s = s.loops ≡ [] → s.dead ≡ true

  -- A running process whose channel has a stream and can be restarted.
  pub record Able (s : Runtime M) : Type 0 where
    pub runs : s.panicked ≡ false
    pub mapped : s.mapped ≡ true
    pub stream : s.stream ≡ true
    pub alive : s.loops ≡ [] → s.dead ≡ true

  Step-Alive : {s t : Runtime M} → Step s t → Alive s → Alive t
  unfolding Alive
  Step-Alive (accepts m room) alive = alive
  Step-Alive (fetches m q before after h k) alive = λ e. absurd (nonempty (some m) before after e)
  Step-Alive (delivers m before after h) alive = λ e. absurd (nonempty none before after e)
  Step-Alive (fails m before after h) alive = λ e. refl
  Step-Alive (puts_back m before after h room) alive = alive
  Step-Alive (looks_up h) alive = alive
  Step-Alive (finds_alive n h k) alive = alive
  Step-Alive (finds_dead n h k) alive = alive
  Step-Alive (restart_refused n h) alive = alive
  Step-Alive (restart_fails n h) alive = alive
  Step-Alive overwritten alive = alive
  Step-Alive (panics h) alive = alive
  Step-Alive (restarts {s} n h) alive = λ e. absurd (nonempty none s.loops [] e)

  pub Steps-Alive : {s t : Runtime M} → Steps s t → Alive s → Alive t
  Steps-Alive done alive = alive
  Steps-Alive (next runs step rest) alive = Steps-Alive rest (Step-Alive step alive)

  -- Every message counts for the steps that it has before it.
  unfoldable pub weight : Runtime M → ℕ
  weight s = length s.queue * 2 + length (fetched s.loops) + length s.returning * 3

  length-idle :
      (before after : List (Option M))
      → length (fetched (before ++ none ∷ after)) ≡ length (fetched (before ++ after))
  unfolding fetched
  length-idle [] after = refl
  length-idle (none ∷ before) after = length-idle before after
  length-idle (some m ∷ before) after = ap suc (length-idle before after)

  length-busy :
      (m : M) (before after : List (Option M))
      → length (fetched (before ++ some m ∷ after)) ≡ suc (length (fetched (before ++ after)))
  unfolding fetched
  length-busy m [] after = refl
  length-busy m (none ∷ before) after = length-busy m before after
  length-busy m (some n ∷ before) after = ap suc (length-busy m before after)

  -- The loops are all idle, or one is sending a message.
  one_busy :
      (loops : List (Option M))
      → (fetched loops ≡ [])
        ⊎ ((m : M) × ((before : List (Option M)) × ((after : List (Option M)) × (loops
                  ≡ before ++ some m ∷ after))))
  unfolding fetched
  one_busy [] = inl refl
  one_busy (some m ∷ loops) = inr (m, ([], (loops, refl)))
  one_busy (none ∷ loops) = elim (one_busy loops) [
    | inl idle ↦ inl idle
    | inr (m, (before, (after, h))) ↦ inr (m, (none ∷ before, (after, ap (λ l. none ∷ l) h)))
  ]

  all_idle :
      (loops : List (Option M))
      → fetched loops ≡ []
      → (loops ≡ []) ⊎ ((after : List (Option M)) × (loops ≡ none ∷ after))
  unfolding fetched
  all_idle [] idle = inl refl
  all_idle (none ∷ loops) idle = inr (loops, refl)
  all_idle (some m ∷ loops) idle = absurd (cc)

  -- A state that is reached, and that has less to do and all messages that were taken.
  pub record Progress (s : Runtime M) : Type 0 where
    pub after : Runtime M
    pub steps : Steps s after
    pub less : weight after < weight s
    pub able : Able after
    pub accepted : after.accepted ≡ s.accepted

  delivered-lt :
      (s : Runtime M) (m : M) (before after : List (Option M))
      → s.loops ≡ before ++ some m ∷ after
      → length s.queue * 2 + length (fetched (before ++ none ∷ after)) + length s.returning * 3
        < weight s
  unfolding weight
  delivered-lt s m before after h =
      omega (
        arith,
        ap (λ l. length (fetched l)) h,
        length-busy m before after,
        length-idle before after,
      )

  fetched-lt :
      (s : Runtime M) (m : M) (q : List M) (after : List (Option M))
      → s.queue ≡ m ∷ q
      → fetched s.loops ≡ []
      → fetched after ≡ []
      → length q * 2 + length (fetched (some m ∷ after)) + length s.returning * 3 < weight s
  unfolding weight fetched
  fetched-lt s m q after h idle none_after =
      omega (arith, ap length h, ap length idle, ap length none_after)

  put_back-lt :
      (s : Runtime M) (m : M) (r : List M)
      → s.returning ≡ m ∷ r
      → length (s.queue ++ m ∷ []) * 2 + length (fetched s.loops) + length r * 3 < weight s
  unfolding weight
  put_back-lt s m r h = omega (arith, ap length h, length-append s.queue (m ∷ []))

  Progress-busy :
      (s : Runtime M) (m : M) (before after : List (Option M))
      → Able s
      → s.loops ≡ before ++ some m ∷ after
      → Progress s
  unfolding weight
  Progress-busy s m before after able h = record {
    after = _;
    steps = next able.runs (delivers m before after h) done;
    less = delivered-lt s m before after h;
    able = record {
      runs = able.runs;
      mapped = able.mapped;
      stream = able.stream;
      alive = λ e. absurd (nonempty none before after e);
    };
    accepted = refl;
  }

  Progress-queue :
      (s : Runtime M) (m : M) (q : List M)
      → Able s
      → fetched s.loops ≡ []
      → s.queue ≡ m ∷ q
      → Progress s
  unfolding weight fetched
  Progress-queue s m q able idle h = elim (all_idle s.loops idle) [
    | inl no_loop ↦ record {
      after = _;
      steps = next able.runs (looks_up able.mapped) (
          next able.runs (finds_dead s.looking_up refl (able.alive no_loop)) (
            next able.runs (restarts s.restarting refl)
              (next able.runs (fetches m q [] [] h (ap (λ l. l ++ none ∷ []) no_loop)) done)));
      less = fetched-lt s m q [] h idle refl;
      able = record {
        runs = able.runs;
        mapped = able.mapped;
        stream = refl;
        alive = λ e. absurd (cc);
      };
      accepted = refl;
    }
    | inr (after, k) ↦ record {
      after = _;
      steps = next able.runs (fetches m q [] after h k) done;
      less = fetched-lt s m q after h idle (sym (ap fetched k) ∙ idle);
      able = record {
        runs = able.runs;
        mapped = able.mapped;
        stream = able.stream;
        alive = λ e. absurd (cc);
      };
      accepted = refl;
    }
  ]

  Progress-returning :
      (s : Runtime M) (m : M) (r : List M)
      → Able s
      → s.queue ≡ []
      → s.returning ≡ m ∷ r
      → Progress s
  unfolding weight
  Progress-returning s m r able empty h = record {
    after = _;
    steps = next able.runs (puts_back m [] r h (room s.queue empty)) done;
    less = put_back-lt s m r h;
    able = record {
      runs = able.runs;
      mapped = able.mapped;
      stream = able.stream;
      alive = able.alive;
    };
    accepted = refl;
  }
    where
      room : (q : List M) → q ≡ [] → length q < 1000
      room q e = omega (arith, ap length e)

  pub progress : (s : Runtime M) → Able s → Drained s ⊎ Progress s
  unfolding Drained
  progress s able = elim (one_busy s.loops) [
    | inr (m, (before, (after, h))) ↦ inr (Progress-busy s m before after able h)
    | inl idle ↦ elim (nil_or_cons s.queue) [
      | inr (m, (q, h)) ↦ inr (Progress-queue s m q able idle h)
      | inl empty ↦ elim (nil_or_cons s.returning) [
        | inr (m, (r, h)) ↦ inr (Progress-returning s m r able empty h)
        | inl nothing ↦ inl (empty, (idle, nothing))
      ]
    ]
  ]
