-- ===== src/Ctl/Devices.antt =====
-- qdctl.c: no command of the control program changes the daemon's devices once their list is locked
-- (add, del, set, show and what they call).
use qaoed.Base.{
  ℤ, pos, ltb_ℤ, String, List, [], ◌∷◌, Option, none, some, true, ◌||◌, ◌==◌, ltb, if◌then◌else◌,
  length, ◌≡◌,
}
use qaoed.Base.Ensures.{Ensures, done-Ensures}
use qaoed.Conf.{AoeDev}
use qaoed.Rcfg.{first}
use qaoed.Api.Query.{strcpy, strncpy}
use qaoed.Ctl.{Line, says, Session, Action, ◌>>=◌, pure, lift, print}
use qaoed.Ctl.Serve.{
  Listing, interfaces, targets, access_lists, Request, get_status, get_list, get_interface,
  Reaction,
}
use qaoed.Ctl.Serve.Held.{serve_status-Kept}
use qaoed.Ctl.Print.{
  exchange, readreply, status_reply, recvshowreply, test_reply, test_api_socket, check_reply,
  check_interface,
}
use qaoed.Ctl.Commands.{
  Client, begins, api_adddel_target, adddel_numbers, adddel_target, list, status, send_mtu,
  mtu_word, set_interface_mtu, set_words, set, del, add, show, disconnect, openapi, name_or_empty,
  to_int,
}
use qaoed.Ctl.Safe.{
  After, Safe, then-After, bind-Safe, pure-Safe, breaks-Safe, print-Safe, if-Safe, lift-Safe,
  exchange-After, exchange-Safe,
}
use qaoed.Ctl.Replies.{
  readreply-Safe, status_reply-Safe, recvshowreply-Safe, recvcmdreply-Safe, test_reply-Safe,
  check_reply-Safe,
}

module _ (cl : Client) (ds : List AoeDev) where
  asks-Safe :
      {A : Type 0} (r : Request) (f : Reaction → Action A)
      → ((a : Reaction) → Safe ds (f a))
      → Safe ds (exchange cl.answers r >>= f)
  asks-Safe r f h = bind-Safe ds (exchange cl.answers r) f (exchange-Safe ds cl.answers r) h

  api_adddel_target-Safe :
      (cmd device : String) (shelf slot : ℤ) (interface : Option String)
      → Safe ds (api_adddel_target cl cmd device shelf slot interface)
  unfolding api_adddel_target
  api_adddel_target-Safe cmd device shelf slot interface =
      bind-Safe ds (lift (strcpy 120 device)) _ (lift-Safe ds (strcpy 120 device)) (λ devicename.
        bind-Safe ds (lift (strcpy 20 (name_or_empty interface))) _ (lift-Safe ds _)
          (λ ifname. asks-Safe _ _ (recvcmdreply-Safe ds)))

  adddel_numbers-Safe :
      (cmd device : String) (slot shelf : Option ℤ) (interface : Option String)
      → Safe ds (adddel_numbers cl cmd device slot shelf interface)
  unfolding adddel_numbers
  adddel_numbers-Safe cmd device none shelf interface = print-Safe ds _
  adddel_numbers-Safe cmd device (some slot) none interface = print-Safe ds _
  adddel_numbers-Safe cmd device (some slot) (some shelf) interface =
      api_adddel_target-Safe cmd device shelf slot interface

  adddel_target-Safe : (cmd : String) (words : List String) → Safe ds (adddel_target cl cmd words)
  unfolding adddel_target
  adddel_target-Safe cmd [] = print-Safe ds _
  adddel_target-Safe cmd (word ∷ []) = print-Safe ds _
  adddel_target-Safe cmd (word ∷ device ∷ more) =
      if-Safe ds (ltb 3 (length more)) _ _ (print-Safe ds _) (adddel_numbers-Safe cmd device _ _ _)

  list-Safe : (l : Listing) → Safe ds (list cl l)
  unfolding list
  list-Safe l = asks-Safe (get_list l) recvshowreply (recvshowreply-Safe ds)

  status-Safe : Safe ds (status cl)
  unfolding status
  status-Safe =
      bind-Safe ds (exchange cl.answers get_status >>= readreply) status_reply
        (asks-Safe get_status readreply (readreply-Safe ds))
        (λ a. status_reply-Safe ds a.cmd a.error a.arg_len a.sent a.payload)

  send_mtu-Safe : (name : String) (mtu : ℤ) → Safe ds (send_mtu cl name mtu)
  unfolding send_mtu
  send_mtu-Safe name mtu = asks-Safe _ _ (λ r. pure-Safe ds tt)

  mtu_word-Safe : (name : String) (word : Option String) → Safe ds (mtu_word cl name word)
  unfolding mtu_word
  mtu_word-Safe name none = breaks-Safe ds
  mtu_word-Safe name (some word) = if-Safe ds (first word == b'a') _ _ (send_mtu-Safe name _) (
      if-Safe ds
        (ltb_ℤ (to_int (cl.strtol word)) (pos 1) || ltb_ℤ (pos 10000) (to_int (cl.strtol word))) _ _
        (print-Safe ds _) (send_mtu-Safe name _))

  set_interface_mtu-Safe : (words : List String) → Safe ds (set_interface_mtu cl words)
  unfolding set_interface_mtu check_interface
  set_interface_mtu-Safe [] = print-Safe ds _
  set_interface_mtu-Safe (word ∷ []) = print-Safe ds _
  set_interface_mtu-Safe (word ∷ name ∷ more) =
      bind-Safe ds (exchange cl.answers (get_interface (strncpy 20 name)) >>= check_reply name) _
        (asks-Safe _ (check_reply name) (check_reply-Safe ds name))
        (λ there. if-Safe ds there _ _ (mtu_word-Safe name _) (print-Safe ds _))

  set_words-Safe : (words : List String) → Safe ds (set_words cl words)
  unfolding set_words
  set_words-Safe [] = print-Safe ds _
  set_words-Safe (word ∷ []) = print-Safe ds _
  set_words-Safe (word ∷ what ∷ more) =
      if-Safe ds (begins 3 what "mtu") _ _ (set_interface_mtu-Safe (what ∷ more)) (print-Safe ds _)

  set-Safe : (words : List String) → Safe ds (set cl words)
  unfolding set
  set-Safe [] = print-Safe ds _
  set-Safe (word ∷ []) = print-Safe ds _
  set-Safe (word ∷ what ∷ more) =
      if-Safe ds (begins 3 what "int") _ _ (set_words-Safe (what ∷ more)) (print-Safe ds _)

  -- The commands that add and remove.
  change-Safe :
      (cmd what : String) (words : List String) (l : Line)
      → Safe ds (
          if begins 3 what "tar"
          then adddel_target cl cmd words
          else if begins 3 what "int"
          then pure tt
          else if begins 3 what "acl" || begins 3 what "acc"
          then pure tt
          else print l)
  change-Safe cmd what words l =
      if-Safe ds (begins 3 what "tar") _ _ (adddel_target-Safe cmd words) (
        if-Safe ds (begins 3 what "int") _ _ (pure-Safe ds tt) (
          if-Safe ds (begins 3 what "acl" || begins 3 what "acc") _ _ (pure-Safe ds tt)
            (print-Safe ds l)))

  del-Safe : (words : List String) → Safe ds (del cl words)
  unfolding del
  del-Safe [] = print-Safe ds _
  del-Safe (word ∷ []) = print-Safe ds _
  del-Safe (word ∷ what ∷ more) = change-Safe "remove" what (what ∷ more) _

  add-Safe : (words : List String) → Safe ds (add cl words)
  unfolding add
  add-Safe [] = print-Safe ds _
  add-Safe (word ∷ []) = print-Safe ds _
  add-Safe (word ∷ what ∷ more) = change-Safe "add" what (what ∷ more) _

  show-Safe : (words : List String) → Safe ds (show cl words)
  unfolding show
  show-Safe [] = print-Safe ds _
  show-Safe (word ∷ []) = print-Safe ds _
  show-Safe (word ∷ what ∷ more) = if-Safe ds (begins 3 what "sta") _ _ status-Safe (
      if-Safe ds (begins 3 what "tar") _ _ (list-Safe targets) (
        if-Safe ds (begins 3 what "int") _ _ (list-Safe interfaces) (
          if-Safe ds (begins 3 what "acl" || begins 3 what "acc") _ _ (list-Safe access_lists)
            (print-Safe ds _))))

  disconnect-Safe : Safe ds disconnect
  disconnect-Safe s k = done-Ensures (After ds) _ k

  -- The part of the program that follows the connection.
  pub words-Safe :
      (word : String) (words : List String)
      → Safe ds (
          if begins 3 word "add"
          then add cl words
          else if begins 3 word "rem"
          then del cl words
          else if begins 3 word "set"
          then set cl words
          else if begins 4 word "show"
          then show cl words
          else print (says "Usage: { add | remove | show | set }"))
  words-Safe word words = if-Safe ds (begins 3 word "add") _ _ (add-Safe words) (
      if-Safe ds (begins 3 word "rem") _ _ (del-Safe words) (
        if-Safe ds (begins 3 word "set") _ _ (set-Safe words)
          (if-Safe ds (begins 4 word "show") _ _ (show-Safe words) (print-Safe ds _))))

-- The connection to a daemon locks its list of devices.
test-After :
    (cl : Client) (s : Session)
    → s.connected ≡ true
    → Ensures (After s.conf.devices) (test_api_socket cl.answers s)
unfolding test_api_socket
test-After cl s open_socket =
    then-After s.conf.devices test_reply (exchange cl.answers get_status s)
      (exchange-After s.conf.devices cl.answers get_status s
        (serve_status-Kept (cl.answers get_status) s.conf) (λ e. absurd (cc (open_socket, e))))
      (test_reply-Safe s.conf.devices)

-- A connection that is made leaves them locked, whatever its test finds.
pub openapi-After :
    (cl : Client) (s : Session)
    → s.connected ≡ true
    → cl.connects ≡ true
    → Ensures (After s.conf.devices) (openapi cl s)
unfolding openapi
openapi-After cl s open_socket connects = rw connects (
    then-After s.conf.devices _ (test_api_socket cl.answers s) (test-After cl s open_socket) (λ ok.
      if-Safe s.conf.devices ok _ _ (pure-Safe s.conf.devices tt)
        (disconnect-Safe cl s.conf.devices)))
