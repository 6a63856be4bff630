-- ===== src/Dobs/Tests.antt =====
-- The dobs driver at concrete inputs: an action that stays in progress. The world counts the calls.
use libstorage.Base.{ℕ, suc, [], ◌∷◌, some, codes, ok, Exec}
use libstorage.Base.Int.{pos}
use libstorage.Types.Errors.{Error}
use libstorage.Types.Models.{InstanceId}
use libstorage.Dobs.{Dobs, Godo, DoVolume, Action, wait_for_action}
use libstorage.Dobs.Waits.{wait_for_action_ten, Outcome}

abbrev free : DoVolume
free = record {
  id = codes "v-1";
  region_slug = codes "nyc1";
  name = codes "data";
  size_giga_bytes = pos 5;
  droplet_ids = [];
}

abbrev going : Action
going = record { id = pos 9; status = codes "in-progress" }

abbrev counted : {A : Type 0} → A → Exec ℕ Error A
counted a s = (ok a, suc s)

abbrev godo : Godo ℕ
godo = record {
  list_volumes = counted (free ∷ []);
  get_volume = λ i. counted free;
  create_volume = λ r. counted free;
  delete_volume = λ i. counted tt;
  attach = λ i n. counted going;
  detach = λ i. counted going;
  get_action = λ i a. counted going;
  eval_symlinks = λ t s. t;
  sleep = λ n s. s;
}

abbrev droplet : InstanceId
droplet = record {
  id = codes "17";
  driver = codes "dobs";
  service = [];
  fields = [];
  metadata = [];
}

abbrev dobs : Dobs
dobs = record { name = codes "dobs"; instance_id = some droplet }

wait_for_action_ten_example :
    Outcome dobs godo (codes "v-1") (pos 9) 10 0 2 (wait_for_action dobs godo (codes "v-1") going 2)
wait_for_action_ten_example = wait_for_action_ten dobs godo (codes "v-1") going 2
