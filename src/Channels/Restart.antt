-- ===== src/Channels/Restart.antt =====
-- What GetStream leaves in the map of channels.
use mathlib.Core.Path.{subst₂}
use clouditor.Prelude.{
  String, ◌≡◌, refl, sym, ap, ◌∙◌, Bool, true, false, Bool-cases, inl, inr, Option, none, some, [],
  ◌∷◌, ◌==◌, str_eq_refl, if◌then◌else◌,
}
use clouditor.Prelude.Maps.{lookup, put, lookup-put}
use clouditor.Status.{Error, Result, ok, err, panic}
use clouditor.Channels.{
  StreamChannel, InitFunc, Streams, added, add_stream, restarted, restart_stream, of_entry,
  found_or_added, wrap, get_stream, close_all,
}

module _ {S : Type 0} where
  -- The channel that a call has found or made is alive, and the map has it under its target: a
  -- further call gives it back, whatever initializer it has.
  pub record Ready (target : String) (c : StreamChannel S) (channels : Streams S) : Type 0 where
    pub alive : c.dead ≡ false
    pub known : lookup target channels ≡ some c

  ready-found :
      (target : String) (c : StreamChannel S) (channels : Streams S)
      → lookup target (put target c channels) ≡ some c
  ready-found target c channels =
      lookup-put target target c channels
      ∙ ap (λ b. if b then some c else lookup target channels) (str_eq_refl target)

  abbrev outcome : Result (StreamChannel S) × Streams S → Result (StreamChannel S)
  outcome p = p.0

  abbrev left : Result (StreamChannel S) × Streams S → Streams S
  left p = p.1

  same_channel : {c d : StreamChannel S} → ok c ≡ ok d → c ≡ d
  same_channel h = cc

  Ready-moved :
      {target : String} {c d : StreamChannel S} {channels after : Streams S}
      → Ready target d channels
      → ok d ≡ ok c
      → channels ≡ after
      → Ready target c after
  Ready-moved {target} ready h k = subst₂ (λ c after. Ready target c after) (same_channel h) k ready

  added-Ready :
      (target component : String) (r : Result S) (channels : Streams S) (c : StreamChannel S)
      (after : Streams S)
      → wrap "could not add stream" (added target component r channels) ≡ (ok c, after)
      → Ready target c after
  unfolding added
  added-Ready target component (ok stream) channels c after h =
      Ready-moved (record { alive = refl; known = ready-found target _ channels }) (ap outcome h)
        (ap left h)
  added-Ready target component (err e) channels c after h = absurd (cc (ap outcome h))
  added-Ready target component panic channels c after h = absurd (cc (ap outcome h))

  restarted-Ready :
      (target : String) (d : StreamChannel S) (r : Result S) (channels : Streams S)
      (c : StreamChannel S) (after : Streams S)
      → wrap "could not restart stream" (restarted target d r channels) ≡ (ok c, after)
      → Ready target c after
  unfolding restarted
  restarted-Ready target d (ok stream) channels c after h =
      Ready-moved (record { alive = refl; known = ready-found target _ channels }) (ap outcome h)
        (ap left h)
  restarted-Ready target d (err e) channels c after h = absurd (cc (ap outcome h))
  restarted-Ready target d panic channels c after h = absurd (cc (ap outcome h))

  add_stream-Ready :
      (target component : String) (init : InitFunc S) (channels : Streams S) (c : StreamChannel S)
      (after : Streams S)
      → wrap "could not add stream" (add_stream target component init channels) ≡ (ok c, after)
      → Ready target c after
  unfolding add_stream
  add_stream-Ready target component none channels c after h = absurd (cc (ap outcome h))
  add_stream-Ready target component (some init) channels c after h =
      added-Ready target component (init target) channels c after h

  restart_stream-Ready :
      (target : String) (d : StreamChannel S) (init : InitFunc S) (channels : Streams S)
      (c : StreamChannel S) (after : Streams S)
      → wrap "could not restart stream" (restart_stream target d init channels) ≡ (ok c, after)
      → Ready target c after
  unfolding restart_stream
  restart_stream-Ready target d none channels c after h = absurd (cc (ap outcome h))
  restart_stream-Ready target d (some init) channels c after h =
      restarted-Ready target d (init d.target) channels c after h

  restart_if_dead-Ready :
      (target : String) (d : StreamChannel S) (init : InitFunc S) (channels : Streams S)
      (c : StreamChannel S) (after : Streams S) (dead : Bool)
      → d.dead ≡ dead
      → lookup target channels ≡ some d
      → (if dead
          then wrap "could not restart stream" (restart_stream target d init channels)
          else (ok d, channels))
        ≡ (ok c, after)
      → Ready target c after
  restart_if_dead-Ready target d init channels c after true is found h =
      restart_stream-Ready target d init channels c after h
  restart_if_dead-Ready target d init channels c after false is found h =
      Ready-moved (record { alive = is; known = found }) (ap outcome h) (ap left h)

  found_or_added-Ready :
      (target component : String) (init : InitFunc S) (channels : Streams S) (c : StreamChannel S)
      (after : Streams S) (entry : Option (StreamChannel S))
      → lookup target channels ≡ entry
      → found_or_added entry target component init channels ≡ (ok c, after)
      → Ready target c after
  unfolding found_or_added of_entry
  found_or_added-Ready target component init channels c after none found h =
      add_stream-Ready target component init channels c after h
  found_or_added-Ready target component init channels c after (some d) found h =
      restart_if_dead-Ready target d init channels c after d.dead refl found h

  -- A channel that GetStream gives is alive, and the map has it under its target.
  pub get_stream-Ready :
      (target component : String) (init : InitFunc S) (channels : Streams S) (c : StreamChannel S)
      (after : Streams S)
      → get_stream target component init channels ≡ (ok c, after)
      → Ready target c after
  unfolding get_stream
  get_stream-Ready target component init channels c after h =
      found_or_added-Ready target component init channels c after (lookup target channels) refl h

  nil_first :
      (s : Option S) (r : Result (Unit {0}))
      → s ≡ none
      → elim s [ none ↦ panic | some stream ↦ r ] ≡ panic
  nil_first none r h = refl
  nil_first (some stream) r h = absurd (cc)

  nil_later :
      (s : Option S) (r : Result (Unit {0}))
      → r ≡ panic
      → elim s [ none ↦ panic | some stream ↦ r ] ≡ panic
  nil_later none r h = refl
  nil_later (some stream) r h = h

  close_all-nil :
      (target : String) (c : StreamChannel S) (channels : Streams S)
      → lookup target channels ≡ some c
      → c.stream ≡ none
      → close_all channels ≡ panic
  unfolding close_all lookup
  close_all-nil target c [] found nil = absurd (cc)
  close_all-nil target c ((k, d) ∷ rest) found nil = elim (Bool-cases (k == target)) [
    | inl same ↦
        nil_first d.stream (close_all rest) (
          stream_of c d (ap (λ b. if b then some d else lookup target rest) (sym same) ∙ found) nil)
    | inr other ↦ nil_later d.stream (close_all rest) (
        close_all-nil target c rest
          (ap (λ b. if b then some d else lookup target rest) (sym other) ∙ found) nil)
  ]
    where
      stream_of : (c d : StreamChannel S) → some d ≡ some c → c.stream ≡ none → d.stream ≡ none
      stream_of c d same nil = cc

  failed-restart :
      (target : String) (c : StreamChannel S) (r : Result S) (channels : Streams S) (e : Error)
      → r ≡ err e
      → (wrap "could not restart stream" (restarted target c r channels)).1
        ≡ put target (record c { stream = none }) channels
  unfolding restarted
  failed-restart target c (ok stream) channels e h = absurd (cc)
  failed-restart target c (err f) channels e h = refl
  failed-restart target c panic channels e h = absurd (cc)

  failed-of_entry :
      (target : String) (c : StreamChannel S) (init : String → Result S) (channels : Streams S)
      (e : Error)
      → c.dead ≡ true
      → init c.target ≡ err e
      → (of_entry target c (some init) channels).1
        ≡ put target (record c { stream = none }) channels
  unfolding of_entry restart_stream
  failed-of_entry target c init channels e dead failed =
      ap
        (λ b.
          (if b
            then wrap "could not restart stream" (restarted target c (init c.target) channels)
            else (ok c, channels)).1)
        dead
      ∙ failed-restart target c (init c.target) channels e failed

  failed-lookup :
      (target component : String) (init : String → Result S) (channels : Streams S)
      (c : StreamChannel S) (e : Error)
      → lookup target channels ≡ some c
      → c.dead ≡ true
      → init c.target ≡ err e
      → (get_stream target component (some init) channels).1
        ≡ put target (record c { stream = none }) channels
  unfolding get_stream found_or_added
  failed-lookup target component init channels c e found dead failed =
      ap (λ entry. (found_or_added entry target component (some init) channels).1) found
      ∙ failed-of_entry target c init channels e dead failed

  -- After a call of GetStream that has found a dead channel and whose initializer has failed, closing
  -- all channels panics.
  pub close_all-get_stream :
      (target component : String) (init : String → Result S) (channels : Streams S)
      (c : StreamChannel S) (e : Error)
      → lookup target channels ≡ some c
      → c.dead ≡ true
      → init c.target ≡ err e
      → close_all (get_stream target component (some init) channels).1 ≡ panic
  close_all-get_stream target component init channels c e found dead failed =
      ap close_all (failed-lookup target component init channels c e found dead failed)
      ∙ close_all-nil target (record c { stream = none }) _
          (ready-found target (record c { stream = none }) channels) refl
