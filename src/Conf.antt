-- ===== src/Conf.antt =====
-- include/qaoed.h: the configuration and the devices. The lists of interfaces, access lists and
-- logging targets only grow, so a pointer into one is a position; a name is a text that is there.
use qaoed.Base.{ℕ, ℤ, String, List, Option, Bool}
use qaoed.Acl.{AclHdr}
use qaoed.Queue.{Queue}

-- `struct logging`; a logtype is -1, 0 or 1.
pub record Logging : Type 0 where
  pub name : String
  pub log_level : ℤ
  pub logtype : ℤ
  pub syslog_facility : ℤ
  pub syslog_level : ℤ
  pub filename : Option String

-- `struct ifst`, without its thread, its socket and its lock.
pub record Ifst : Type 0 where
  pub ifname : String
  pub hwaddr : Option (List ℕ)
  pub mtu : ℤ
  pub buffsize : ℤ
  pub log : Option ℕ
  pub log_level : ℤ
  pub refcnt : ℤ

-- `struct aoedev`, without its thread and its locks; `fp` says whether the file is open.
pub record AoeDev : Type 0 where
  pub devicename : Option String
  pub fp : Bool
  pub size : ℕ
  pub shelf : ℕ
  pub slot : ℕ
  pub interface : Option ℕ
  pub writecache : ℤ
  pub broadcast : ℤ
  pub wacl : Option ℕ
  pub racl : Option ℕ
  pub cfgsetacl : Option ℕ
  pub cfgracl : Option ℕ
  pub queue : Queue
  pub log : Option ℕ
  pub log_level : ℤ
  pub cfg_len : ℕ
  pub cfg : List ℕ

-- A `pthread_rwlock_t`: how many hold it for reading, and whether one holds it for writing.
pub record RwLock : Type 0 where
  pub readers : ℕ
  pub writer : Bool

-- `struct qconfig`, without the thread of the API.
pub record QConfig : Type 0 where
  pub log : Option ℕ
  pub log_level : ℤ
  pub intlistlock : RwLock
  pub intlist : List Ifst
  pub devdefault : Option AoeDev
  pub devlistlock : RwLock
  pub devices : List AoeDev
  pub acllist : List AclHdr
  pub loglist : List Logging
  pub aclnumplan : ℕ
  pub sockpath : Option String
