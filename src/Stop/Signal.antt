-- ===== src/Stop/Signal.antt =====
-- What a signal does.
use qsp_protocol_node.Prelude.{
  ℕ, true, false, List, [], ◌∷◌, ◌++◌, ◌≡◌, refl, arith, Result, ok, none, some, All,
}
use qsp_protocol_node.Stop.{Process, stop_each, stop_all, handle_sigkill_signal}

stop_each-All :
    (stops : ℕ → Result (Unit {0})) (xs : List ℕ)
    → All (λ x. stops x ≡ ok tt) xs
    → stop_each stops xs ≡ (xs, none)
unfolding stop_each
stop_each-All stops [] h = refl
stop_each-All stops (x ∷ xs) h = let e = h.0 in let r = stop_each-All stops xs h.1 in ground arith

-- The first signal tells every registered object to stop, in the order of registration, if none of
-- them raises; the process exits with 0, and a second signal changes nothing.
pub handle_sigkill_signal_lem :
    (stops : ℕ → Result (Unit {0})) (p : Process)
    → p.stopping ≡ false
    → All (λ x. stops x ≡ ok tt) p.objects
    → (handle_sigkill_signal stops p
        ≡ record p { stopped = p.stopped ++ p.objects; stopping = true; exit = some 0 })
      × (handle_sigkill_signal stops (handle_sigkill_signal stops p)
          ≡ handle_sigkill_signal stops p)
unfolding handle_sigkill_signal stop_all
handle_sigkill_signal_lem stops p first h =
    let e = stop_each-All stops p.objects h in (ground arith, ground arith)
