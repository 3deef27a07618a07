-- ===== src/Stop.antt =====
-- The registry of the objects that are stopped when the process ends (utils/stop.py). An object is a
-- number; `stops` says whether its `stop` returns or raises.
pub mod Signal
use qsp_protocol_node.Prelude.{
  ℕ, Bool, true, false, List, [], ◌∷◌, ◌++◌, if◌then◌else◌, ltb, ◌==◌, Result, ok, raise, Exn,
  value_error, Option, none, some,
}

-- The registry, the objects that were told to stop, whether a signal is being handled, and the code
-- with which the process has exited.
pub record Process : Type 0 where
  pub objects : List ℕ
  pub stopped : List ℕ
  pub stopping : Bool
  pub exit : Option ℕ

unfoldable pub register : ℕ → Process → Process
register stoppable p = record p { objects = p.objects ++ stoppable ∷ [] }

-- `list.remove`: the first of them, or a ValueError.
unfoldable pub remove : ℕ → List ℕ → Result (List ℕ)
remove x [] = raise (value_error "list.remove(x): x not in list")
remove x (y ∷ ys) =
    let rest = remove x ys in
    if x == y then ok ys else elim rest [ raise e ↦ raise e | ok zs ↦ ok (y ∷ zs) ]

unfoldable pub deregister : ℕ → Process → Result Process
unfolding remove
deregister stoppable p = elim (remove stoppable p.objects) [
  | raise e ↦ raise e
  | ok objects ↦ ok (record p { objects = objects })
]

-- The loop of stop_all: the objects that were told to stop, and the exception that ended it, if any.
unfoldable pub stop_each : (ℕ → Result (Unit {0})) → List ℕ → List ℕ × Option Exn
stop_each stops [] = ([], none)
stop_each stops (x ∷ xs) =
    let rest = stop_each stops xs in
    elim (stops x) [ raise e ↦ (x ∷ [], some e) | ok u ↦ (x ∷ rest.0, rest.1) ]

unfoldable pub stop_all : (ℕ → Result (Unit {0})) → Process → Process × Option Exn
unfolding stop_each
stop_all stops p =
    let r = stop_each stops p.objects in (record p { stopped = p.stopped ++ r.0 }, r.1)

-- Stop.normal: an exception of stop_all goes on to the caller, and the process does not exit.
unfoldable pub normal : (ℕ → Result (Unit {0})) → Process → Process × Option Exn
unfolding stop_all
normal stops p =
    let r = stop_all stops p in
    elim r.1 [ some e ↦ r | none ↦ (record r.0 { exit = some 0 }, none) ]

-- Stop.error, for a code that is not negative. The error that it is given is only logged.
unfoldable pub error_stop : (ℕ → Result (Unit {0})) → ℕ → Process → Process × Option Exn
unfolding stop_all
error_stop stops code p =
    let r = stop_all stops p in
    if ltb code 1
    then (p, some (value_error "Excepting error code >= 1"))
    else elim r.1 [ some e ↦ r | none ↦ (record r.0 { exit = some code }, none) ]

-- __handle_sigkill_signal: only the first signal does anything, and its exceptions are logged.
unfoldable pub handle_sigkill_signal : (ℕ → Result (Unit {0})) → Process → Process
unfolding stop_all
handle_sigkill_signal stops p =
    if p.stopping
    then p
    else (let r = stop_all stops (record p { stopping = true }) in record r.0 { exit = some 0 })
