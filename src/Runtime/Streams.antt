-- ===== src/Runtime/Streams.antt =====
-- What the stream of events sends.
use docta.Prelude.{
  ℕ, ◌+◌, ◌≡◌, refl, sym, ◌∙◌, ap, List, [], ◌∷◌, ◌++◌, map, String, ok, err, if◌then◌else◌, length,
  drop, inl, inr, Result-cases, Bool-cases, arith,
}
use mathlib.Core.List.{append_assoc, append-nil}
use docta.Conversations.{MessageView, is_pending}
use docta.Runtime.Routes.{
  Event, accepted_event, heartbeat, phase_event, terminal_event, Round, beat, rounds, stream,
}

-- The phases among events.
pub phases : List Event → List String
phases [] = []
phases (e ∷ es) =
    let rest = phases es in
    elim e [
      | phase_event p ↦ p ∷ rest
      | accepted_event ↦ rest
      | heartbeat ↦ rest
      | terminal_event m ↦ rest
    ]

-- `progress` as the last round that sends anything sees it.
pub last_progress : List Round → List String → List String
last_progress [] p = p
last_progress (o ∷ os) p =
    let later = last_progress os o.progress in
    elim o.current [ err e ↦ p | ok m ↦ if is_pending m.state then later else o.progress ]

-- Between the rounds phases are only appended, and none while a round is sending.
unfoldable pub IsSteady : List String → List Round → Type 0
IsSteady p [] = Unit
IsSteady p (o ∷ os) =
    ((more : List String) × (o.progress ≡ p ++ more))
    × (o.counted ≡ length o.progress)
    × IsSteady o.progress os

phases-append : (xs ys : List Event) → phases (xs ++ ys) ≡ phases xs ++ phases ys
unfolding phases
phases-append [] ys = refl
phases-append (phase_event p ∷ xs) ys = ap (λ r. p ∷ r) (phases-append xs ys)
phases-append (accepted_event ∷ xs) ys = phases-append xs ys
phases-append (heartbeat ∷ xs) ys = phases-append xs ys
phases-append (terminal_event m ∷ xs) ys = phases-append xs ys

phases-map : (ps : List String) → phases (map phase_event ps) ≡ ps
unfolding phases
phases-map [] = refl
phases-map (p ∷ ps) = ap (λ r. p ∷ r) (phases-map ps)

phases-beat : (n : ℕ) → phases (beat n) ≡ []
unfolding phases
phases-beat n = ground arith

drop-append : (p more : List String) → drop (length p) (p ++ more) ≡ more
drop-append [] more = refl
drop-append (x ∷ p) more = drop-append p more

-- The phases of a round that waits.
phases-round :
    (p more : List String) (n : ℕ) (rest : List Event)
    → p ++ phases (map phase_event (drop (length p) (p ++ more)) ++ (beat n ++ rest))
      ≡ (p ++ more) ++ phases rest
phases-round p more n rest =
    let sent = phases-append (map phase_event (drop (length p) (p ++ more))) (beat n ++ rest) in
    let waiting = phases-append (beat n) rest in
    rw (sent, phases-map (drop (length p) (p ++ more)), drop-append p more, waiting, phases-beat n)
      (sym (append_assoc p more (phases rest)))

-- The phases of the round that ends the stream.
phases-last :
    (p more : List String) (m : MessageView)
    → phases (map phase_event (drop (length p) (p ++ more)) ++ terminal_event m ∷ []) ≡ more
unfolding phases
phases-last p more m =
    phases-append (map phase_event (drop (length p) (p ++ more))) (terminal_event m ∷ [])
    ∙ append-nil _
    ∙ phases-map (drop (length p) (p ++ more))
    ∙ drop-append p more

phases-rounds :
    (os : List Round) (p : List String) (n : ℕ)
    → IsSteady p os
    → p ++ phases (rounds os (length p) n) ≡ last_progress os p
unfolding IsSteady rounds last_progress phases
phases-rounds [] p n h = append-nil p
phases-rounds (o ∷ os) p n ((more, grown), counted, steady) = elim (Result-cases o.current) [
  | inl (e, failed) ↦ rw (failed, rounds, last_progress) (append-nil p)
  | inr (m, seen) ↦ elim (Bool-cases (is_pending m.state)) [
    | inl waits ↦
        rw (seen, waits, counted, rounds, last_progress)
          (ap
              (λ (q : List String).
                p
                ++ phases (
                    map phase_event (drop (length p) q)
                    ++ (beat (n + 1) ++ rounds os (length o.progress) (n + 1))))
              grown
            ∙ phases-round p more (n + 1) (rounds os (length o.progress) (n + 1))
            ∙ ap (λ (q : List String). q ++ phases (rounds os (length o.progress) (n + 1)))
                (sym grown)
            ∙ phases-rounds os o.progress (n + 1) steady)
    | inr over ↦
        rw (seen, over, rounds, last_progress)
          (ap
              (λ (q : List String).
                p ++ phases (map phase_event (drop (length p) q) ++ terminal_event m ∷ []))
              grown
            ∙ ap (λ (q : List String). p ++ q) (phases-last p more m)
            ∙ sym grown)
  ]
]

-- As long as phases are only appended, and none while a round is sending, the stream sends each phase
-- of the execution once and in order, up to those that the last round sees.
pub phases-stream : (os : List Round) → IsSteady [] os → phases (stream os) ≡ last_progress os []
unfolding stream phases
phases-stream os steady = phases-rounds os [] 0 steady
