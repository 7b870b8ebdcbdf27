-- ===== src/Api/Query/Listed.antt =====
-- The list of targets that a client is given.
use qaoed.Base.{
  ℕ, ◌+◌, ◌*◌, ◌<◌, ◌≡◌, refl, arith, String, List, [], ◌∷◌, some, true, false, done, lt→ltb,
  length, get_elem?, codes, All,
}
use qaoed.Conf.{Ifst, AoeDev, RwLock, QConfig}
use qaoed.Api.{TargetInfo}
use qaoed.Api.Lock.{rdlock, unlock, unlock_for}
use qaoed.Api.Query.{ok_reply, strcpy, fill, target_info, target_list, sizeof_target_info}

-- A device with a file and an interface whose names fit the fields of a reply.
abbrev pub IsListable : List Ifst → AoeDev → Type 0
IsListable intlist d =
    (name : String) × (i : ℕ) × (iface : Ifst) × (d.devicename ≡ some name)
    × (d.interface ≡ some i)
    × (get_elem? intlist i ≡ some iface)
    × (length (codes name) < 120)
    × (length (codes iface.ifname) < 20)

-- What a row of the list says of a device.
pub record Describes (intlist : List Ifst) (d : AoeDev) (t : TargetInfo) : Type 0 where
  pub devicename : d.devicename ≡ some t.devicename
  pub shelf : t.shelf ≡ d.shelf
  pub slot : t.slot ≡ d.slot
  pub interface :
      (i : ℕ) × (iface : Ifst) × (d.interface ≡ some i)
      × (get_elem? intlist i ≡ some iface)
      × (t.ifname ≡ iface.ifname)
  pub writecache : t.writecache ≡ d.writecache
  pub broadcast : t.broadcast ≡ d.broadcast

abbrev pub Rows : List Ifst → List AoeDev → List TargetInfo → Type 0
Rows intlist [] [] = Unit
Rows intlist [] (t ∷ ts) = ⊥
Rows intlist (d ∷ ds) [] = ⊥
Rows intlist (d ∷ ds) (t ∷ ts) = Describes intlist d t × Rows intlist ds ts

strcpy-done : (n : ℕ) (s : String) → length (codes s) < n → strcpy n s ≡ done s
unfolding strcpy
strcpy-done n s h = rw (lt→ltb (length (codes s)) n h)

target_info-Describes :
    (intlist : List Ifst) (d : AoeDev)
    → IsListable intlist d
    → (t : TargetInfo) × (target_info intlist d ≡ done t) × Describes intlist d t
unfolding target_info
target_info-Describes intlist d (name, i, iface, en, ei, eg, fn, fi) = (
  record {
    devicename = name;
    shelf = d.shelf;
    slot = d.slot;
    ifname = iface.ifname;
    writecache = d.writecache;
    broadcast = d.broadcast;
  },
  rw (en, strcpy-done 120 name fn, ei, eg, strcpy-done 20 iface.ifname fi),
  record {
    devicename = en;
    shelf = refl;
    slot = refl;
    interface = (i, iface, ei, eg, refl);
    writecache = refl;
    broadcast = refl;
  },
)

fill-Rows :
    (intlist : List Ifst) (ds : List AoeDev)
    → All (IsListable intlist) ds
    → (ts : List TargetInfo) × (fill (target_info intlist) (length ds) ds ≡ done ts)
      × Rows intlist ds ts
unfolding fill
fill-Rows intlist [] h = ([], refl, tt)
fill-Rows intlist (d ∷ ds) h =
    let (t, et, describes) = target_info-Describes intlist d h.0 in
    let (ts, es, rows) = fill-Rows intlist ds h.1 in (t ∷ ts, rw (et, es), (describes, rows))

module _ (l : RwLock) (free : l.writer ≡ false) where
  reader : RwLock
  reader = record { readers = l.readers + 1; writer = false }

  rdlock-reader : rdlock l ≡ done reader
  unfolding rdlock reader
  rdlock-reader = ground arith

  unlock-reader : unlock reader ≡ done l
  unfolding unlock unlock_for reader
  unlock-reader = ground arith

-- A client that asks for the targets, while nobody writes the list and the names fit their fields,
-- gets one row for each device, in order, that tells its file, address, interface and options. The
-- header announces the size of the rows, as many bytes are sent, and the locks are given back.
pub target_list-Rows :
    (conf : QConfig)
    → conf.devlistlock.writer ≡ false
    → All (IsListable conf.intlist) conf.devices
    → (ts : List TargetInfo) × (target_list true conf
        ≡ done (conf, some (ok_reply (length conf.devices * sizeof_target_info) ts)))
      × Rows conf.intlist conf.devices ts
unfolding target_list
target_list-Rows conf free listable =
    let (ts, e, rows) = fill-Rows conf.intlist conf.devices listable in
    (ts, rw (rdlock-reader conf.devlistlock free, e, unlock-reader conf.devlistlock free), rows)
