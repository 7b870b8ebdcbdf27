-- ===== src/Ctl/Serve/Held.antt =====
-- A daemon that answered a request for the status: its list of devices is locked for reading from then
-- on, and no request of the control program changes that list.
use qaoed.Base.{
  ◌<◌, ◌≡◌, ◌⊎◌, inl, inr, refl, subst, ◌∙◌, arith, List, [], ◌∷◌, Option, none, some, Bool, true,
  false, done, blocked, valid, ltb, lt→ltb, if◌then◌else◌, length, get_elem?, length-append,
}
use qaoed.Base.Ensures.{Ensures, bind-Ensures, done-Ensures, blocked-Ensures, if-Ensures}
use qaoed.Conf.{RwLock, AoeDev, QConfig}
use qaoed.Start.Devices.{started}
use qaoed.Api.{TargetInfo, interface_setmtu}
use qaoed.Api.Add.{target_add, devdefaults, admit_target, append_target, any_conflict, Reply}
use qaoed.Api.Lock.{rdlock, wrlock, unlock}
use qaoed.Api.Query.{
  IfInfo, fill, target_info, if_info, status, target_list, int_list, acl_list, interface_status,
}
use qaoed.Api.Query.Leak.{rdlock-unlock, relock-IsReadBy}
use qaoed.Api.Dispatch.{Answers, cast, passes, add_locked, del_locked, process_request}
use qaoed.Ctl.Serve.{
  interfaces, targets, access_lists, Request, get_status, get_list, get_interface, set_interface,
  add_target, del_target, list_command, command, body, Reaction, reply, serve,
}

-- Somebody reads.
abbrev pub IsHeld : RwLock → Type 0
IsHeld l = (0 < l.readers) × (l.writer ≡ false)

abbrev pub Kept : List AoeDev → QConfig → Type 0
Kept ds conf = (conf.devices ≡ ds) × IsHeld conf.devlistlock

passes-rdlock : (l : RwLock) → Ensures (λ m. l ≡ m) (passes rdlock l)
unfolding passes
passes-rdlock l =
    bind-Ensures (λ m. l ≡ m) (rdlock l) unlock λ a e m e'. cc (rdlock-unlock l a e, e')

pub wrlock-IsHeld : (l : RwLock) → IsHeld l → wrlock l ≡ blocked
unfolding wrlock
wrlock-IsHeld l h = ground arith

passes-wrlock : (P : RwLock → Type 0) (l : RwLock) → IsHeld l → Ensures P (passes wrlock l)
unfolding passes
passes-wrlock P l h = rw (wrlock-IsHeld l h) (blocked-Ensures P)

-- A result whose first part is a configuration that keeps the devices.
abbrev Keeps {ℓ} : {B : Type ℓ} → List AoeDev → QConfig × B → Type 0
Keeps ds r = Kept ds r.0

pub status-Kept : (conf : QConfig) → Ensures (Keeps conf.devices) (status conf)
unfolding status
status-Kept conf = bind-Ensures (Keeps conf.devices) (rdlock conf.devlistlock) _ λ a e1.
    bind-Ensures (Keeps conf.devices) (unlock a) _ λ b e2.
      bind-Ensures (Keeps conf.devices) (rdlock b) _ λ c e3.
        bind-Ensures (Keeps conf.devices) (unlock conf.intlistlock) _ λ d e4.
          let held = relock-IsReadBy conf.devlistlock a b c e1 e2 e3 in
          done-Ensures (Keeps conf.devices) _ (refl, (omega arith, held.1))

module _ (ds : List AoeDev) (conf : QConfig) (kept : Kept ds conf) where
  target_list-Kept : (malloc : Bool) → Ensures (Keeps ds) (target_list malloc conf)
  unfolding target_list
  target_list-Kept malloc = bind-Ensures (Keeps ds) (rdlock conf.devlistlock) _ λ a e1.
      bind-Ensures {A = List TargetInfo} (Keeps ds)
        (if malloc
          then fill (target_info conf.intlist) (length conf.devices) conf.devices
          else done [])
        _
        λ list e2. bind-Ensures (Keeps ds) (unlock a) _ λ b e3.
          let same : conf.devlistlock ≡ b = cc (rdlock-unlock conf.devlistlock a e1, e3) in
          done-Ensures (Keeps ds) _ (kept.0, subst IsHeld same kept.1)

  int_list-Kept : (malloc : Bool) → Ensures (Keeps ds) (int_list malloc conf)
  unfolding int_list
  int_list-Kept malloc = bind-Ensures (Keeps ds) (rdlock conf.intlistlock) _ λ a e1.
      bind-Ensures {A = List IfInfo} (Keeps ds)
        (if malloc then fill if_info (length conf.intlist) conf.intlist else done []) _
        λ list e2. bind-Ensures (Keeps ds) (unlock a) _ (λ b e3. done-Ensures (Keeps ds) _ kept)

-- A new target stands behind the others.
abbrev Grows : List AoeDev → QConfig × Option Reply → Type 0
Grows ds r = (r.0.devices ≡ ds) ⊎ (length ds < length r.0.devices)

append_target-Grows :
    (o : Option AoeDev) (t : TargetInfo) (conf : QConfig)
    → Ensures (Grows conf.devices) (append_target o t conf)
unfolding append_target
append_target-Grows none t conf = done-Ensures (Grows conf.devices) _ (inl refl)
append_target-Grows (some d) t conf =
    bind-Ensures (Grows conf.devices) (valid d.interface) _ λ i e1.
      bind-Ensures (Grows conf.devices) (valid (get_elem? conf.intlist i)) _ λ iface e2.
        bind-Ensures (Grows conf.devices) (valid d.devicename) _ λ name e3.
          done-Ensures (Grows conf.devices) _
            (inr (omega (arith, length-append conf.devices (d ∷ []))))

admit_target-Grows :
    (start : AoeDev → Option AoeDev) (t : TargetInfo) (new : AoeDev) (conf : QConfig)
    → Ensures (Grows conf.devices) (admit_target start t new conf)
unfolding admit_target
admit_target-Grows start t new conf =
    bind-Ensures (Grows conf.devices) (any_conflict conf.devices new) _ λ bad e.
      if-Ensures (Grows conf.devices) bad _ _ (done-Ensures (Grows conf.devices) _ (inl refl))
        (append_target-Grows (start new) t conf)

target_add-Grows :
    (start : AoeDev → Option AoeDev) (o : Option AoeDev) (t : TargetInfo) (conf : QConfig)
    → Ensures (Grows conf.devices) (target_add start o t conf)
unfolding target_add devdefaults
target_add-Grows start none t conf = done-Ensures (Grows conf.devices) _ (inl refl)
target_add-Grows start (some fresh) t conf = admit_target-Grows start t _ _

module _ (ans : Answers) (t : TargetInfo) (ds : List AoeDev) (conf : QConfig)
    (kept : Kept ds conf) where
  add_locked-Kept : Ensures (Kept ds) (add_locked ans t conf)
  unfolding add_locked
  add_locked-Kept = bind-Ensures (Kept ds) (passes rdlock conf.devlistlock) _ λ read e1.
      bind-Ensures (Kept ds) (target_add (started ans.sys conf.intlist) ans.fresh t conf) _ λ r e2.
        let same = passes-rdlock conf.devlistlock read e1 in
        let held = subst IsHeld same kept.1 in
        elim (target_add-Grows (started ans.sys conf.intlist) ans.fresh t conf r e2) [
          | inl old ↦
              bind-Ensures {A = RwLock} (Kept ds)
                (if ltb (length conf.devices) (length r.0.devices)
                  then passes wrlock read
                  else done read)
                _
                λ written e3. done-Ensures (Kept ds) _ (
                  old ∙ kept.0,
                  if-Ensures IsHeld (ltb (length conf.devices) (length r.0.devices)) _ _
                      (passes-wrlock IsHeld read held) (done-Ensures IsHeld read held) written e3,
                )
          | inr longer ↦
              let waits : ltb (length conf.devices) (length r.0.devices) ≡ true =
                lt→ltb _ _ longer in
              rw waits (
                bind-Ensures (Kept ds) (passes wrlock read) _
                  (λ w e. absurd (passes-wrlock (λ _. ⊥) read held w e)))
        ]

  del_locked-Kept : Ensures (Kept ds) (del_locked ans t conf)
  unfolding del_locked
  del_locked-Kept =
      bind-Ensures (Kept ds) (passes wrlock conf.devlistlock) _
        λ w e. absurd (passes-wrlock (λ _. ⊥) conf.devlistlock kept.1 w e)

process_status-Kept :
    (ans : Answers) (conf : QConfig) → Ensures (Kept conf.devices) (process_request ans 0 none conf)
unfolding process_request
process_status-Kept ans conf =
    bind-Ensures (Kept conf.devices) (status conf) _
      λ r e. done-Ensures (Kept conf.devices) _ (status-Kept conf r e)

module _ (ans : Answers) (ds : List AoeDev) (conf : QConfig) (kept : Kept ds conf) where
  process-Kept : (r : Request) → Ensures (Kept ds) (process_request ans (command r) (body r) conf)
  unfolding process_request command body cast list_command interface_setmtu
  process-Kept get_status =
      bind-Ensures (Kept ds) (status conf) _
        λ r e. let k = status-Kept conf r e in done-Ensures (Kept ds) _ (k.0 ∙ kept.0, k.1)
  process-Kept (get_list interfaces) =
      bind-Ensures (Kept ds) (int_list ans.malloc conf) _
        λ r e. done-Ensures (Kept ds) _ (int_list-Kept ds conf kept ans.malloc r e)
  process-Kept (get_list targets) =
      bind-Ensures (Kept ds) (target_list ans.malloc conf) _
        λ r e. done-Ensures (Kept ds) _ (target_list-Kept ds conf kept ans.malloc r e)
  process-Kept (get_list access_lists) =
      bind-Ensures (Kept ds) (acl_list ans.malloc conf) _ (λ r e. done-Ensures (Kept ds) _ kept)
  process-Kept (get_interface name) =
      bind-Ensures (Kept ds) (interface_status name conf) _ (λ r e. done-Ensures (Kept ds) _ kept)
  process-Kept (set_interface name mtu) = done-Ensures (Kept ds) _ kept
  process-Kept (add_target t) = add_locked-Kept ans t ds conf kept
  process-Kept (del_target t) = del_locked-Kept ans t ds conf kept

-- A reaction, and a configuration that keeps the devices.
abbrev pub Served : List AoeDev → Reaction × QConfig → Type 0
Served ds r = Kept ds r.1

with_reply :
    (ans : Answers) (r : Request) (ds : List AoeDev) (conf : QConfig)
    → Ensures (Kept ds) (process_request ans (command r) (body r) conf)
    → Ensures (Served ds) (serve ans r conf)
unfolding serve
with_reply ans r ds conf h =
    bind-Ensures (Served ds) (process_request ans (command r) (body r) conf) _ λ conf' e.
      bind-Ensures (Served ds) (reply ans r conf) _
        λ reaction e'. done-Ensures (Served ds) (reaction, conf') (h conf' e)

pub serve-Kept :
    (ans : Answers) (r : Request) (ds : List AoeDev) (conf : QConfig)
    → Kept ds conf
    → Ensures (Served ds) (serve ans r conf)
serve-Kept ans r ds conf kept = with_reply ans r ds conf (process-Kept ans ds conf kept r)

-- The first request is for the status.
pub serve_status-Kept :
    (ans : Answers) (conf : QConfig) → Ensures (Served conf.devices) (serve ans get_status conf)
unfolding command body
serve_status-Kept ans conf =
    with_reply ans get_status conf.devices conf (process_status-Kept ans conf)
