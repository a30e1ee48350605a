-- ===== src/Bus/Order.antt =====
-- What a connector receives, and in which order.
use horust.Prelude.{
  ℕ, ◌≡◌, ◌≢◌, refl, sym, ap, ◌∙◌, inl, inr, false, some, List, [], ◌∷◌, ◌++◌, arith,
}
use horust.Prelude.Tests.{nat_eq, nat_eq_iff, Bool-cases}
use horust.Prelude.Lists.{All, flat_map, append_assoc, append-nil}
use horust.Bus.{
  BusConnector, Bus, join_bus, send_event, retain_sent, dispatch, is_connector, queue_of, update,
  try_get_events, disconnect, Step, join, send, turn, receive, leave, step, steps,
}

module _ {ℓ} {T : Type ℓ} where
  abbrev pub sent_by : Step T → List T
  sent_by (send ev) = ev ∷ []
  sent_by _ = []

  -- The events that are sent during the steps, in order.
  abbrev pub sent : List (Step T) → List T
  sent = flat_map sent_by

  queue_of-append :
      (n : ℕ) (cs ds : List (BusConnector T)) {q : List T}
      → queue_of n cs ≡ some q
      → queue_of n (cs ++ ds) ≡ some q
  unfolding queue_of
  queue_of-append n [] ds h = cc
  queue_of-append n (c ∷ cs) ds {q} h = elim (Bool-cases (is_connector n c)) [
    | inl e ↦ ground arith
    | inr e ↦ ground (arith, queue_of-append n cs ds {q = q})
  ]

  queue_of-retain_sent :
      (n : ℕ) (ev : T) (cs : List (BusConnector T)) {q : List T}
      → queue_of n cs ≡ some q
      → queue_of n (retain_sent ev cs) ≡ some (q ++ ev ∷ [])
  unfolding queue_of retain_sent
  queue_of-retain_sent n ev [] h = cc
  queue_of-retain_sent n ev (c ∷ cs) {q} h = elim (Bool-cases c.connected) [
    | inr e ↦ rw e (queue_of-retain_sent n ev cs (ground arith))
    | inl e ↦ elim (Bool-cases (is_connector n c)) [
      | inl f ↦ let same : c.queue ≡ q = ground arith in ground arith
      | inr f ↦ let rest = queue_of-retain_sent n ev cs {q = q} (ground arith) in ground arith
    ]
  ]

  queue_of-update_clear :
      (n : ℕ) (cs : List (BusConnector T)) {q : List T}
      → queue_of n cs ≡ some q
      → queue_of n (update n (λ c. record c { queue = [] }) cs) ≡ some []
  unfolding queue_of update
  queue_of-update_clear n [] h = cc
  queue_of-update_clear n (c ∷ cs) {q} h = elim (Bool-cases (is_connector n c)) [
    | inl e ↦ rw e (rw e)
    | inr e ↦ rw e (rw e (queue_of-update_clear n cs {q = q} (ground arith)))
  ]

  queue_of-update_ne :
      (n m : ℕ) (f : BusConnector T → BusConnector T) (cs : List (BusConnector T)) {q : List T}
      → m ≢ n
      → ((c : BusConnector T) → (f c).id ≡ c.id)
      → queue_of n cs ≡ some q
      → queue_of n (update m f cs) ≡ some q
  unfolding queue_of update
  queue_of-update_ne n m f [] d g h = cc
  queue_of-update_ne n m f (c ∷ cs) {q} d g h = elim (Bool-cases (is_connector m c)) [
    | inl e ↦
        let mine : is_connector n c ≡ false = ground arith in
        let theirs : is_connector n (f c) ≡ false = ground (arith, g c) in
        rw e (rw theirs (ground arith))
    | inr e ↦ rw e (ground (arith, queue_of-update_ne n m f cs {q = q} d g))
  ]

  -- What the connector has received or has yet to receive.
  abbrev pub Keeps : ℕ → List T → List T → List T × Bus T → Type ℓ
  Keeps n q new r =
      (q' : List T) × (queue_of n r.1.senders ≡ some q') × (r.0 ++ (q' ++ r.1.input) ≡ q ++ new)

  dispatch-Keeps :
      (n : ℕ) (b : Bus T) {q : List T}
      → queue_of n b.senders ≡ some q
      → Keeps n q b.input ([], dispatch b)
  unfolding dispatch
  dispatch-Keeps n b {q} h = go b.input refl
    where
      go : (i : List T) → b.input ≡ i → Keeps n q b.input ([], dispatch b)
      go [] e = rw e (q, h, refl)
      go (ev ∷ rest) e =
          rw e (q ++ ev ∷ [], queue_of-retain_sent n ev b.senders h, append_assoc q (ev ∷ []) rest)

  receive-Keeps :
      (n m : ℕ) (b : Bus T) {q : List T}
      → queue_of n b.senders ≡ some q
      → Keeps n q b.input (step n (receive m) b)
  unfolding step try_get_events
  receive-Keeps n m b {q} h = elim (Bool-cases (nat_eq m n)) [
    | inl e ↦
        let same : m ≡ n = (nat_eq_iff m n).0 e in
        ([], rw same (queue_of-update_clear n b.senders h), rw e (rw same (rw h refl)))
    | inr e ↦ (q, queue_of-update_ne n m _ b.senders (λ p. ground arith) (λ c. refl) h, rw e refl)
  ]

  step-Keeps :
      (n : ℕ) (s : Step T) (b : Bus T) {q : List T}
      → queue_of n b.senders ≡ some q
      → s ≢ leave n
      → Keeps n q (b.input ++ sent_by s) (step n s b)
  unfolding step join_bus send_event disconnect
  step-Keeps n join b {q} h d = (q, queue_of-append n b.senders _ h, rw (append-nil b.input) refl)
  step-Keeps n (send ev) b {q} h d = (q, h, refl)
  step-Keeps n turn b {q} h d = rw (append-nil b.input) (dispatch-Keeps n b h)
  step-Keeps n (receive m) b {q} h d = rw (append-nil b.input) (receive-Keeps n m b h)
  step-Keeps n (leave m) b {q} h d = (
    q,
    queue_of-update_ne n m _ b.senders (λ p. d (rw p refl)) (λ c. refl) h,
    rw (append-nil b.input) refl,
  )

  regroup : (q i s t : List T) → (q ++ (i ++ s)) ++ t ≡ q ++ (i ++ (s ++ t))
  regroup q i s t = append_assoc q (i ++ s) t ∙ ap (λ x. q ++ x) (append_assoc i s t)

  -- A connector receives every event that is sent over the bus while it is there, once and in the order
  -- of the sending: what it receives during the steps, then what waits in its queue and in the input of
  -- the bus, is what waited for it before, then what was sent, whatever other threads do, as long as it
  -- does not leave.
  pub steps-Keeps :
      (n : ℕ) (ss : List (Step T)) (b : Bus T) {q : List T}
      → queue_of n b.senders ≡ some q
      → All (λ s. s ≢ leave n) ss
      → Keeps n q (b.input ++ sent ss) (steps n ss b)
  unfolding steps
  steps-Keeps n [] b {q} h d = (q, h, rw (append-nil b.input) refl)
  steps-Keeps n (s ∷ ss) b {q} h d =
      let (q₁, h₁, e₁) = step-Keeps n s b h d.0 in
      let (out, b₁) = step n s b in
      let (q₂, h₂, e₂) = steps-Keeps n ss b₁ h₁ d.1 in
      (
        q₂,
        h₂,
        append_assoc out _ _
            ∙ ap (λ x. out ++ x) e₂
            ∙ sym (regroup out q₁ b₁.input (sent ss))
            ∙ ap (λ x. x ++ sent ss) e₁
            ∙ regroup q b.input (sent_by s) (sent ss),
      )
