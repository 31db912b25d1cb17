-- ===== src/AvahiCore/Server.antt =====
-- avahicore.cpp: the server that all objects of a process share. The first object makes it, its
-- state callback is given that object, and the last object frees it.
pub mod Second
pub mod Deleted
use qt_zero_conf.AvahiCore.{broswer_clean_up, State, new_state}
use qt_zero_conf.Base.{
  zero, ◌==◌, if◌then◌else◌, suc, [], ◌≢◌, false, none, ◌∷◌, length, some, ◌-◌, ◌<◌, ◌++◌, set, ◌≡◌,
  List, ◌+◌, ◌%◌, get_elem?, ℕ, Option,
}
use qt_zero_conf.Avahi.{
  server_new, server_config_free, string_list_free, Replies, server_free, Protocol, Effects,
}
use qt_zero_conf.AvahiCore.Api.{
  stop_service_publish, start_service_publish, ServerState, server_callback,
}
use qt_zero_conf.Service.{calls}
use qt_zero_conf.Text.{Text}

-- The static members `server` and `referenceCount`, the object that was given to
-- avahi_server_new, and every object that was made, `none` after it is deleted.
pub record World : Type 0 where
  pub server : Option ℕ
  pub reference_count : ℕ
  pub owner : Option ℕ
  pub instances : List (Option State)

-- The static members as the process starts, and no object.
unfoldable pub new_world : World
new_world = record { server = none; reference_count = 0; owner = none; instances = [] }

pub data Event : Type 0 where
  creates : Protocol → ℕ → Option ℕ → Event
  deletes : ℕ → Event
  server_changes : ServerState → Replies → Event
  publishes : ℕ → Text → Text → Text → ℕ → ℕ → Replies → Event
  stops_publish : ℕ → Event

abbrev pub u32 : ℕ → ℕ
u32 n = n % 4294967296

-- The constructor; `server` is what avahi_server_new returns, if it is called.
unfoldable pub create : World → Protocol → ℕ → Option ℕ → World × Effects
create w protocol port server =
    let fresh = w.instances ++ some (new_state protocol port) ∷ [] in
    if w.reference_count == 0
    then (
      record {
        server = server;
        reference_count = u32 (w.reference_count + 1);
        owner = some (length w.instances);
        instances = fresh;
      },
      calls (server_new server) ∷ [],
    )
    else (record w { reference_count = u32 (w.reference_count + 1); instances = fresh }, [])

-- `if (!pri->referenceCount) avahi_server_free(pri->server);`
abbrev pub free_server : ℕ → Option ℕ → Effects
free_server zero server = calls (server_free server) ∷ []
free_server (suc n) server = []

-- The destructor of an object.
unfoldable pub delete : World → ℕ → State → World × Effects
unfolding broswer_clean_up
delete w i s =
    let count = u32 (w.reference_count + 4294967296 - 1) in
    (
      record w { reference_count = count; instances = set w.instances i none },
      calls (string_list_free s.txt) ∷ (broswer_clean_up s).1
          ++ calls server_config_free ∷ free_server count w.server,
    )

-- A method or callback of one object.
abbrev pub update : World → ℕ → State × Effects → World × Effects
update w i q = (record w { instances = set w.instances i (some q.0) }, q.1)

abbrev pub join : Option (Option State) → Option State
join none = none
join (some o) = o

-- The object that an index names; `none` is a use of an object that is deleted or never was.
abbrev pub alive : World → ℕ → Option State
alive w i = join (get_elem? w.instances i)

-- A call with the object, if it is alive.
abbrev pub on_alive {ℓ} : {A : Type ℓ} → Option State → (State → A) → Option A
on_alive none f = none
on_alive (some s) f = some (f s)

-- The callback of the server, with the object that was given to avahi_server_new.
abbrev pub on_owner {ℓ} : {A : Type ℓ} → Option ℕ → (ℕ → Option A) → Option A
on_owner none f = none
on_owner (some i) f = f i

-- One event; `none` is a call of a deleted object.
unfoldable pub step : World → Event → Option (World × Effects)
step w (creates protocol port server) = some (create w protocol port server)
step w (deletes i) = on_alive (alive w i) (delete w i)
step w (server_changes state r) =
    on_owner w.owner λ i. on_alive (alive w i) λ s. update w i (server_callback w.server s state r)
step w (publishes i name type domain port interface r) =
    on_alive (alive w i)
      λ s. update w i (start_service_publish w.server s name type domain port interface r)
step w (stops_publish i) = on_alive (alive w i) λ s. update w i (stop_service_publish s)

-- Events one after the other, as a relation, which no call of a deleted object extends.
pub data Reaches (v : World) : World → Type 0 where
  here : Reaches v v
  next :
      {w : World} {u : World}
      → Reaches v w
      → (e : Event) (effects : Effects) → step w e ≡ some (u, effects)
      → Reaches v u
