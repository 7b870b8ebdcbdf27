-- ===== src/Ctl/Commands.antt =====
-- qdctl.c: the words of the command line (main, add, del, set, show and what they call). `strtol` and
-- whether the socket connects are arguments; an argument vector is a list, which ends where the
-- vector has its NULL.
use qaoed.Base.{
  ℕ, ◌-◌, ◌%◌, ◌^◌, ℤ, pos, negsuc, ltb_ℤ, to_size, String, str_eq, List, [], ◌∷◌, Option, none,
  some, Bool, true, false, not, ◌&&◌, ◌||◌, ◌==◌, ltb, leb, if◌then◌else◌, length, get_elem?, done,
}
use Prim.Native.Char.{code}
use Prim.Native.String
use qaoed.Rcfg.{first}
use qaoed.Parse.Dev.{to_u16, to_u8}
use qaoed.Main.{alive}
use qaoed.Api.{TargetInfo}
use qaoed.Api.Query.{strcpy, strncpy}
use qaoed.Api.Dispatch.{Answers}
use qaoed.Ctl.{says, says_number, Action, ◌>>=◌, ◌>>◌, pure, exit, breaks, lift, print}
use qaoed.Ctl.Serve.{
  Listing, interfaces, targets, access_lists, Request, get_status, get_list, set_interface,
  add_target, del_target,
}
use qaoed.Ctl.Print.{
  exchange, readreply, status_reply, recvshowreply, recvcmdreply, test_api_socket, check_interface,
}

-- What the program takes from the system.
pub record Client : Type 0 where
  pub answers : Request → Answers
  pub strtol : String → ℤ
  pub connects : Bool

-- `strncmp(s, word, n) == 0` for a word of n characters.
unfoldable pub begins : ℕ → String → String → Bool
begins n s word = str_eq (strncpy n s) word

-- `isdigit` on every character.
unfoldable pub all_digits : String → Bool
all_digits String.[] = true
all_digits (String.◌∷◌ c s) =
    let rest = all_digits s in (leb b'0' (code c) && leb (code c) b'9') && rest

-- The conversion of a `long` to an `int`.
unfoldable pub to_int : ℤ → ℤ
to_int n = let m = to_size n % 2 ^ 32 in if ltb m (2 ^ 31) then pos m else negsuc (2 ^ 32 - m - 1)

-- A number of the command line: all of its characters are digits, and it is not above the limit.
unfoldable pub number : (String → ℤ) → ℕ → String → Option ℤ
number strtol limit s =
    let n = to_int (strtol s) in
    if not (all_digits s)
    then none
    else if ltb_ℤ n (pos 0) || ltb_ℤ (pos limit) n
    then none
    else some n

unfoldable pub number_or : (String → ℤ) → ℕ → ℕ → Option String → Option ℤ
number_or strtol limit default none = some (pos default)
number_or strtol limit default (some s) = number strtol limit s

abbrev pub name_or_empty : Option String → String
name_or_empty none = ""
name_or_empty (some s) = s

abbrev pub target_usage : String → Action (Unit {0})
target_usage cmd = print (says (String.◌++◌ cmd " target <device> [shelf] [slot] [interface]"))

-- `API_adddel_target`: the names are copied into their fields, the numbers cut to theirs.
unfoldable pub api_adddel_target :
    Client → String → String → ℤ → ℤ → Option String → Action (Unit {0})
api_adddel_target cl cmd device shelf slot interface = do
  devicename ← lift (strcpy 120 device)
  ifname ← lift (strcpy 20 (name_or_empty interface))
  let t : TargetInfo = record {
    devicename = devicename;
    shelf = to_u16 shelf;
    slot = to_u8 slot;
    ifname = ifname;
    writecache = negsuc 0;
    broadcast = negsuc 0;
  }
  r ← exchange cl.answers (if begins 6 cmd "remove" then del_target t else add_target t)
  recvcmdreply r

unfoldable pub adddel_numbers :
    Client → String → String → Option ℤ → Option ℤ → Option String → Action (Unit {0})
adddel_numbers cl cmd device none shelf interface = target_usage cmd
adddel_numbers cl cmd device (some slot) none interface = target_usage cmd
adddel_numbers cl cmd device (some slot) (some shelf) interface =
    api_adddel_target cl cmd device shelf slot interface

-- The words are `target`, a device and at most a shelf, a slot and an interface.
unfoldable pub adddel_target : Client → String → List String → Action (Unit {0})
adddel_target cl cmd [] = target_usage cmd
adddel_target cl cmd (word ∷ []) = target_usage cmd
adddel_target cl cmd (word ∷ device ∷ more) =
    if ltb 3 (length more)
    then target_usage cmd
    else adddel_numbers cl cmd device (number_or cl.strtol 255 0xff (get_elem? more 1))
        (number_or cl.strtol 65535 0xffff (get_elem? more 0)) (get_elem? more 2)

unfoldable pub list : Client → Listing → Action (Unit {0})
list cl l = exchange cl.answers (get_list l) >>= recvshowreply

unfoldable pub status : Client → Action (Unit {0})
status cl = exchange cl.answers get_status >>= readreply >>= status_reply

-- No reply is awaited once the new MTU is sent.
unfoldable pub send_mtu : Client → String → ℤ → Action (Unit {0})
send_mtu cl name mtu = exchange cl.answers (set_interface (strncpy 20 name) mtu) >>= λ r. pure tt

-- A missing word is a NULL, of which the first character is read.
unfoldable pub mtu_word : Client → String → Option String → Action (Unit {0})
mtu_word cl name none = breaks
mtu_word cl name (some word) =
    let mtu = to_int (cl.strtol word) in
    if first word == b'a'
    then send_mtu cl name (negsuc 0)
    else if ltb_ℤ mtu (pos 1) || ltb_ℤ (pos 10000) mtu
    then print (says_number "Invalid MTU value" mtu)
    else send_mtu cl name mtu

unfoldable pub set_interface_mtu : Client → List String → Action (Unit {0})
set_interface_mtu cl [] = print (says "Usage: set interface mtu { auto | <mtu size> }")
set_interface_mtu cl (word ∷ []) = print (says "Usage: set interface mtu { auto | <mtu size> }")
set_interface_mtu cl (word ∷ name ∷ more) = do
  there ← check_interface cl.answers name
  if there then mtu_word cl name (get_elem? more 0) else print (says "No such interface configured")

unfoldable pub set_words : Client → List String → Action (Unit {0})
set_words cl [] = print (says "Usage: set interface { mtu | ... }")
set_words cl (word ∷ []) = print (says "Usage: set interface { mtu | ... }")
set_words cl (word ∷ what ∷ more) =
    if begins 3 what "mtu"
    then set_interface_mtu cl (what ∷ more)
    else print (says "Usage: set interface { mtu | ... }")

unfoldable pub set : Client → List String → Action (Unit {0})
set cl [] = print (says "Usage: set { interface }")
set cl (word ∷ []) = print (says "Usage: set { interface }")
set cl (word ∷ what ∷ more) =
    if begins 3 what "int"
    then set_words cl (what ∷ more)
    else print (says "Usage: set { interface }")

-- The commands for interfaces and access lists do nothing.
unfoldable pub del : Client → List String → Action (Unit {0})
del cl [] = print (says "Usage: remove { target | interface | access-list }")
del cl (word ∷ []) = print (says "Usage: remove { target | interface | access-list }")
del cl (word ∷ what ∷ more) =
    if begins 3 what "tar"
    then adddel_target cl "remove" (what ∷ more)
    else if begins 3 what "int"
    then pure tt
    else if begins 3 what "acl" || begins 3 what "acc"
    then pure tt
    else print (says "Usage: remove { target | interface | access-list }")

unfoldable pub add : Client → List String → Action (Unit {0})
add cl [] = print (says "Usage: add { target | interface | access-list }")
add cl (word ∷ []) = print (says "Usage: add { target | interface | access-list }")
add cl (word ∷ what ∷ more) =
    if begins 3 what "tar"
    then adddel_target cl "add" (what ∷ more)
    else if begins 3 what "int"
    then pure tt
    else if begins 3 what "acl" || begins 3 what "acc"
    then pure tt
    else print (says "Usage: add { target | interface | access-list }")

unfoldable pub show : Client → List String → Action (Unit {0})
show cl [] = print (says "Usage: show { status | targets | interfaces | access-lists }")
show cl (word ∷ []) = print (says "Usage: show { status | targets | interfaces | access-lists }")
show cl (word ∷ what ∷ more) =
    if begins 3 what "sta"
    then status cl
    else if begins 3 what "tar"
    then list cl targets
    else if begins 3 what "int"
    then list cl interfaces
    else if begins 3 what "acl" || begins 3 what "acc"
    then list cl access_lists
    else print (says "Usage: show { status | targets | interfaces | access-lists }")

abbrev pub disconnect : Action (Unit {0})
disconnect s = done (alive tt, record s { connected = false })

-- `openapi`: if the daemon's status is not as expected, the socket is closed.
unfoldable pub openapi : Client → Action (Unit {0})
openapi cl =
    if cl.connects
    then (test_api_socket cl.answers >>= λ ok. if ok then pure tt else disconnect)
    else print (says "Failed to connect to API") >> exit

-- The words after the program's name; what `openapi` returns is not looked at.
unfoldable pub qdctl : Client → List String → Action (Unit {0})
qdctl cl [] = print (says "Usage: { add | remove | show | set }") >> exit
qdctl cl (word ∷ more) =
    openapi cl
    >> (if begins 3 word "add"
        then add cl (word ∷ more)
        else if begins 3 word "rem"
        then del cl (word ∷ more)
        else if begins 3 word "set"
        then set cl (word ∷ more)
        else if begins 4 word "show"
        then show cl (word ∷ more)
        else print (says "Usage: { add | remove | show | set }"))
