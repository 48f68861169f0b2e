-- ===== src/Scenarios/Loading.antt =====
-- A runtime that loads its model, and one whose backend fails.
use leanlm.Common.{◌≡◌, refl, false, []}
use leanlm.Shared.Errors.{ok, raise, unexpected}
use leanlm.Runtime.StateMachine.{loading, new_machine, is_in, allowed}
use leanlm.Runtime.Loading.{LeanlmRuntime, Backend, load}
use leanlm.Runtime.Loading.Retry.{loading_refused, load_refused}

abbrev fresh : LeanlmRuntime
fresh = record {
  machine = new_machine;
  loaded = false;
  bus = record { subscribers = []; events = []; keep_last = 100; delivered = [] };
}

abbrev pub working : Backend
working = record { name = "llama.cpp"; model_id = "m1"; load = ok tt }

abbrev broken : Backend
broken = record {
  name = "llama.cpp";
  model_id = "m1";
  load = raise (unexpected "OSError: no such file");
}

load_refused_example :
    let after = (load "t" broken fresh).1 in
    (after.machine.state ≡ loading) × (load "t" working after ≡ (raise loading_refused, after))
unfolding is_in allowed
load_refused_example =
    load_refused "t" broken working fresh (unexpected "OSError: no such file") refl refl refl
