-- ===== src/Shared/Events/History.antt =====
-- What the bounded history of the event bus (shared/events.py) holds.
use leanlm.Common.{
  ℕ, zero, suc, ◌+◌, ◌-◌, ◌≤◌, ◌≡◌, refl, List, [], ◌∷◌, ◌++◌, arith, ltb, append_assoc, ◌∙◌, sym,
  true, length, drop, length-append, length-drop, map, ap, append-nil,
}
use native.Mathlib.Decide.{dec_le}
use leanlm.Shared.Events.{Event, EventBus, Subscriber, new, publish, remember}

-- The last `k` items of a list.
abbrev pub last : {A : Type 0} → ℕ → List A → List A
last k xs = drop (length xs - k) xs

module _ {A : Type 0} where
  drop-append : (m : ℕ) (xs ys : List A) → m ≤ length xs → drop m (xs ++ ys) ≡ drop m xs ++ ys
  drop-append zero xs ys h = refl
  drop-append (suc m) [] ys h = absurd (omega arith)
  drop-append (suc m) (x ∷ xs) ys h = drop-append m xs ys (omega arith)

  drop-one : (m : ℕ) (xs : List A) → drop 1 (drop m xs) ≡ drop (suc m) xs
  drop-one zero xs = refl
  drop-one (suc m) [] = refl
  drop-one (suc m) (x ∷ xs) = drop-one m xs

  drop-short : (m : ℕ) (xs : List A) → m ≡ 0 → drop m xs ≡ xs
  drop-short m xs e = rw e

remember_at_limit :
    (k : ℕ) (old : List Event) (e : Event)
    → length old ≡ k
    → remember k old e ≡ drop 1 (old ++ e ∷ [])
unfolding remember
remember_at_limit k old e h =
    let grown : length (old ++ e ∷ []) ≡ k + 1 = length-append old (e ∷ []) ∙ ap (λ n. n + 1) h in
    let one : k + 1 - k ≡ 1 = omega arith in
    let over : ltb k (k + 1) ≡ true = ground arith in rw (grown, over, one)

remember_below_limit :
    (k : ℕ) (old : List Event) (e : Event) → length old + 1 ≤ k → remember k old e ≡ old ++ e ∷ []
unfolding remember
remember_below_limit k old e h = ground (arith, length-append old (e ∷ []))

-- One more event: the history is again what the limit leaves of all that was published.
remember-last :
    (k : ℕ) (past : List Event) (e : Event) → remember k (last k past) e ≡ last k (past ++ e ∷ [])
remember-last k past e = elim (dec_le (length past + 1) k) [
  | yes short ↦
      let before : length past - k ≡ 0 = omega arith in
      let after : length (past ++ e ∷ []) - k ≡ 0 = omega (arith, length-append past (e ∷ [])) in
      rw (before, after) (remember_below_limit k past e short)
  | no full ↦
      let size : length past - (length past - k) ≡ k = omega arith in
      let after : length (past ++ e ∷ []) - k ≡ suc (length past - k) =
        omega (arith, length-append past (e ∷ [])) in
      remember_at_limit k (last k past) e (length-drop (length past - k) past ∙ size)
      ∙ ap (drop 1) (sym (drop-append (length past - k) past (e ∷ []) (omega arith)))
      ∙ drop-one (length past - k) (past ++ e ∷ [])
      ∙ sym (ap (λ n. drop n (past ++ e ∷ [])) after)
]

abbrev pub publish_all : List Event → EventBus → EventBus
publish_all [] b = b
publish_all (e ∷ es) b = publish_all es (publish e b)

-- What the subscribers `ss` are called with when the events are published in turn.
abbrev pub calls : List Subscriber → List Event → List (Subscriber × Event)
calls ss [] = []
calls ss (e ∷ es) = map (λ s. (s, e)) ss ++ calls ss es

publish_all-events :
    (es past : List Event) (b : EventBus)
    → b.events ≡ last b.keep_last past
    → (publish_all es b).events ≡ last b.keep_last (past ++ es)
unfolding publish
publish_all-events [] past b h = h ∙ ap (last b.keep_last) (sym (append-nil past))
publish_all-events (e ∷ es) past b h =
    publish_all-events es (past ++ e ∷ []) (publish e b)
      (ap (λ l. remember b.keep_last l e) h ∙ remember-last b.keep_last past e)
    ∙ ap (last b.keep_last) (append_assoc past (e ∷ []) es)

publish_all-delivered :
    (es : List Event) (b : EventBus)
    → (publish_all es b).delivered ≡ b.delivered ++ calls b.subscribers es
unfolding publish
publish_all-delivered [] b = sym (append-nil b.delivered)
publish_all-delivered (e ∷ es) b =
    publish_all-delivered es (publish e b)
    ∙ append_assoc b.delivered (map (λ s. (s, e)) b.subscribers) (calls b.subscribers es)

-- Whatever is published on a bus that starts empty, with any subscribers, the history is the last
-- `keep_last` of the published events in their order, and each subscriber has been called with
-- every event, in the order of publication and, for one event, of subscription.
publish-last :
    (keep_last : ℕ) (ss : List Subscriber) (es : List Event)
    → let b = publish_all es (record (new keep_last) { subscribers = ss }) in
      (b.events ≡ last keep_last es) × (b.delivered ≡ calls ss es)
unfolding new
publish-last k ss es =
    let b : EventBus = record (new k) { subscribers = ss } in
    (
      publish_all-events es [] b (sym (drop-short (0 - k) [] (omega arith))),
      publish_all-delivered es b,
    )
