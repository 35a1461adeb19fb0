-- ===== src/Channels/Loops/Multisets.antt =====
-- What the channel of api/streams.go promises its callers, on multisets: a message that it has
-- accepted is pending or sent. The order of the messages is forgotten.
use mathlib.Core.List.{append-nil, perm_middle}
use mathlib.Core.Path.{subst}
use mathlib.Core.Quot.{sound}
use mathlib.Mathlib.Data.Multiset.Defs.{Multiset, of_list}
use mathlib.Mathlib.Data.Multiset.ZeroCons.{cons, cons-swap}
use mathlib.Mathlib.Data.Multiset.AddSub.{add, cons-add, add-cons}
use clouditor.Prelude.{◌≡◌, refl, sym, ap, ◌∙◌, Option, none, some, List, [], ◌∷◌, ◌++◌}
use clouditor.Channels.Loops.{
  Runtime, Step, accepts, fetches, delivers, fails, puts_back, finds_dead, restart_fails, restarts,
  looks_up, finds_alive, restart_refused, overwritten, panics,
}

-- The messages of the loops that are sending one.
unfoldable pub fetched : {M : Type 0} → List (Option M) → List M
fetched [] = []
fetched (none ∷ loops) = fetched loops
fetched (some m ∷ loops) = m ∷ fetched loops

pub record Promise (M : Type 0) : Type 0 where
  pub accepted : Multiset M
  pub pending : Multiset M
  pub sent : Multiset M

-- One step of a channel, as its callers see it.
pub data Move {M : Type 0} : Promise M → Promise M → Type 0 where
  keep : {p : Promise M} → Move p p
  take_in :
      {p : Promise M} (m : M)
      → Move p (record p { accepted = cons m p.accepted; pending = cons m p.pending })
  deliver :
      {p : Promise M} (m : M) (rest : Multiset M)
      → p.pending ≡ cons m rest
      → Move p (record p { pending = rest; sent = cons m p.sent })

module _ {M : Type 0} where
  -- What the three places hold that a message can be in.
  held : Multiset M → Multiset M → Multiset M → Multiset M
  held queue fetched returning = add queue (add fetched returning)

  unfoldable pub view : Runtime M → Promise M
  unfolding fetched held
  view s = record {
    accepted = of_list s.accepted;
    pending = held (of_list s.queue) (of_list (fetched s.loops)) (of_list s.returning);
    sent = of_list s.sent;
  }

  held-queue : (m : M) (q f r : Multiset M) → held (cons m q) f r ≡ cons m (held q f r)
  unfolding held
  held-queue m q f r = cons-add m q (add f r)

  held-fetched : (m : M) (q f r : Multiset M) → held q (cons m f) r ≡ cons m (held q f r)
  unfolding held
  held-fetched m q f r = ap (λ x. add q x) (cons-add m f r) ∙ add-cons m q (add f r)

  held-returning : (m : M) (q f r : Multiset M) → held q f (cons m r) ≡ cons m (held q f r)
  unfolding held
  held-returning m q f r = ap (λ x. add q x) (add-cons m f r) ∙ add-cons m q (add f r)

  middle :
      (m : M) (xs ys : List M)
      → ◌≡◌ {A = Multiset M} (of_list (xs ++ m ∷ ys)) (cons m (of_list (xs ++ ys)))
  middle m xs ys = sound (perm_middle xs ys)

  last : (m : M) (xs : List M) → ◌≡◌ {A = Multiset M} (of_list (xs ++ m ∷ [])) (cons m (of_list xs))
  last m xs = middle m xs [] ∙ ap (λ l. cons m (of_list l)) (append-nil xs)

  fetched-idle :
      (before after : List (Option M))
      → ◌≡◌ {A = Multiset M}
          (of_list (fetched (before ++ none ∷ after)))
          (of_list (fetched (before ++ after)))
  unfolding fetched
  fetched-idle [] after = refl
  fetched-idle (none ∷ before) after = fetched-idle before after
  fetched-idle (some m ∷ before) after = ap (cons m) (fetched-idle before after)

  fetched-busy :
      (m : M) (before after : List (Option M))
      → ◌≡◌ {A = Multiset M}
          (of_list (fetched (before ++ some m ∷ after)))
          (cons m (of_list (fetched (before ++ after))))
  unfolding fetched
  fetched-busy m [] after = refl
  fetched-busy m (none ∷ before) after = fetched-busy m before after
  fetched-busy m (some n ∷ before) after =
      ap (cons n) (fetched-busy m before after)
      ∙ cons-swap n m (of_list (fetched (before ++ after)))

  in_loops :
      {xs ys : List (Option M)}
      → xs ≡ ys
      → ◌≡◌ {A = Multiset M} (of_list (fetched xs)) (of_list (fetched ys))
  in_loops h = ap (λ l. of_list (fetched l)) h

  -- A move that changes no more than the places that hold the messages.
  Move-keep :
      {a p q s : Multiset M}
      → p ≡ q
      → Move
          (record { accepted = a; pending = p; sent = s })
          (record { accepted = a; pending = q; sent = s })
  Move-keep {a} {p} {q} {s} h =
      subst
        (λ x.
          Move (record { accepted = a; pending = p; sent = s })
            (record { accepted = a; pending = x; sent = s }))
        h keep

  Move-take_in :
      (m : M) {a p q s : Multiset M}
      → q ≡ cons m p
      → Move
          (record { accepted = a; pending = p; sent = s })
          (record { accepted = cons m a; pending = q; sent = s })
  Move-take_in m {a} {p} {q} {s} h =
      subst
        (λ x.
          Move (record { accepted = a; pending = p; sent = s })
            (record { accepted = cons m a; pending = x; sent = s }))
        (sym h) (take_in m)

  queue_to_fetched :
      (m : M) {q f' : Multiset M} (q' f r : Multiset M)
      → q ≡ cons m q'
      → f' ≡ cons m f
      → held q f r ≡ held q' f' r
  queue_to_fetched m q' f r h k = cc (h, k, held-queue m q' f r, held-fetched m q' f r)

  fetched_to_returning :
      (m : M) {f : Multiset M} (q f' r : Multiset M)
      → f ≡ cons m f'
      → held q f r ≡ held q f' (cons m r)
  fetched_to_returning m q f' r h = cc (h, held-fetched m q f' r, held-returning m q f' r)

  returning_to_queue :
      (m : M) {r q' : Multiset M} (q f r' : Multiset M)
      → r ≡ cons m r'
      → q' ≡ cons m q
      → held q f r ≡ held q' f r'
  returning_to_queue m q f r' h k = cc (h, k, held-returning m q f r', held-queue m q f r')

  -- Every step of the channel's goroutines takes one message in, delivers one pending message, or
  -- changes nothing for the callers.
  pub step-Move : {s t : Runtime M} → Step s t → Move (view s) (view t)
  unfolding view
  step-Move (accepts {s} m room) = Move-take_in m (
      ap (λ x. held x (of_list (fetched s.loops)) (of_list s.returning)) (last m s.queue)
      ∙ held-queue m (of_list s.queue) (of_list (fetched s.loops)) (of_list s.returning))
  step-Move (fetches {s} m q before after h k) = Move-keep (
      queue_to_fetched m (of_list q) (of_list (fetched s.loops)) (of_list s.returning)
        (ap of_list h)
        (fetched-busy m before after ∙ ap (cons m) (sym (in_loops k ∙ fetched-idle before after))))
  step-Move (delivers {s} m before after h) =
      deliver m
        (held (of_list s.queue) (of_list (fetched (before ++ none ∷ after))) (of_list s.returning))
        (ap (λ x. held (of_list s.queue) x (of_list s.returning))
            (in_loops h
              ∙ fetched-busy m before after
              ∙ ap (cons m) (sym (fetched-idle before after)))
          ∙ held-fetched m (of_list s.queue) (of_list (fetched (before ++ none ∷ after)))
              (of_list s.returning))
  step-Move (fails {s} m before after h) = Move-keep (
      fetched_to_returning m (of_list s.queue) (of_list (fetched (before ++ after)))
        (of_list s.returning) (in_loops h ∙ fetched-busy m before after))
  step-Move (puts_back {s} m before after h room) = Move-keep (
      returning_to_queue m (of_list s.queue) (of_list (fetched s.loops)) (of_list (before ++ after))
        (ap of_list h ∙ middle m before after) (last m s.queue))
  step-Move (looks_up h) = keep
  step-Move (finds_alive n h k) = keep
  step-Move (finds_dead n h k) = keep
  step-Move (restart_refused n h) = keep
  step-Move (restart_fails n h) = keep
  step-Move (restarts {s} n h) = Move-keep (
      ap (λ x. held (of_list s.queue) x (of_list s.returning))
        (sym (fetched-idle s.loops [] ∙ in_loops (append-nil s.loops))))
  step-Move overwritten = keep
  step-Move (panics h) = keep
