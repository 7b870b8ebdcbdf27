-- ===== src/Ctl/Replies.antt =====
-- Whatever the replies of the daemon are, to read and print them keeps its devices.
use qaoed.Base.{
  ℕ, String, str_eq, List, [], ◌∷◌, true, false, not, ◌&&◌, ◌||◌, ◌==◌, ltb, length, codes,
}
use qaoed.Conf.{AoeDev}
use qaoed.Api.{api_allok}
use qaoed.Api.Query.{sizeof_status, sizeof_target_info}
use qaoed.Ctl.{Line, Action, ◌>>◌, exit, print}
use qaoed.Ctl.Serve.{
  Reaction, silent, closed, answers, Answer, Payload, no_payload, status_payload, target_rows,
  interface_rows, acl_rows, interface_payload, mtu_payload, target_payload,
}
use qaoed.Ctl.Print.{
  readreply, print_all, status_reply, row_lines, target_add_reply, process_reply, recvshowreply,
  recvcmdreply, test_reply, same_interface, check_reply,
}
use qaoed.Ctl.Safe.{
  Safe, bind-Safe, pure-Safe, exit-Safe, waits-Safe, breaks-Safe, print-Safe, if-Safe,
}

module _ (ds : List AoeDev) where
  pub says-Safe : {A : Type 0} (l : Line) (m : Action A) → Safe ds m → Safe ds (print l >> m)
  says-Safe l m h = bind-Safe ds (print l) (λ _. m) (print-Safe ds l) (λ _. h)

  pub readreply-Safe : (r : Reaction) → Safe ds (readreply r)
  unfolding readreply
  readreply-Safe silent = waits-Safe ds
  readreply-Safe closed = says-Safe _ exit (exit-Safe ds)
  readreply-Safe (answers a) =
      if-Safe ds (ltb 2048 a.arg_len) _ _ (says-Safe _ exit (exit-Safe ds)) (
        if-Safe ds (a.arg_len == 0) _ _ (pure-Safe ds a) (
          if-Safe ds (a.sent == 0) _ _ (waits-Safe ds) (
            if-Safe ds (a.arg_len == 2048) _ _ (breaks-Safe ds) (
              if-Safe ds (ltb a.sent a.arg_len) _ _ (says-Safe _ exit (exit-Safe ds))
                (pure-Safe ds a)))))

  print_all-Safe : (ls : List Line) → Safe ds (print_all ls)
  unfolding print_all
  print_all-Safe [] = pure-Safe ds tt
  print_all-Safe (l ∷ ls) = says-Safe l (print_all ls) (print_all-Safe ls)

  pub status_reply-Safe :
      (cmd error arg_len sent : ℕ) (p : Payload)
      → Safe ds (
          status_reply
            (record { cmd = cmd; error = error; arg_len = arg_len; sent = sent; payload = p }))
  unfolding status_reply
  status_reply-Safe cmd error arg_len sent (status_payload st) =
      if-Safe ds ((cmd == 0) && (arg_len == sizeof_status)) _ _ (print-Safe ds _) (pure-Safe ds tt)
  status_reply-Safe cmd error arg_len sent no_payload = pure-Safe ds tt
  status_reply-Safe cmd error arg_len sent (target_rows ts) = pure-Safe ds tt
  status_reply-Safe cmd error arg_len sent (interface_rows is) = pure-Safe ds tt
  status_reply-Safe cmd error arg_len sent (acl_rows acls) = pure-Safe ds tt
  status_reply-Safe cmd error arg_len sent (interface_payload i) = pure-Safe ds tt
  status_reply-Safe cmd error arg_len sent (mtu_payload m) = pure-Safe ds tt
  status_reply-Safe cmd error arg_len sent (target_payload t) = pure-Safe ds tt

  target_add_reply-Safe :
      (cmd error arg_len sent : ℕ) (p : Payload)
      → Safe ds (
          target_add_reply
            (record { cmd = cmd; error = error; arg_len = arg_len; sent = sent; payload = p }))
  unfolding target_add_reply
  target_add_reply-Safe cmd error arg_len sent (target_payload t) =
      if-Safe ds (arg_len == sizeof_target_info) _ _ (says-Safe _ _ (print-Safe ds _))
        (print-Safe ds _)
  target_add_reply-Safe cmd error arg_len sent no_payload = print-Safe ds _
  target_add_reply-Safe cmd error arg_len sent (status_payload st) = print-Safe ds _
  target_add_reply-Safe cmd error arg_len sent (target_rows ts) = print-Safe ds _
  target_add_reply-Safe cmd error arg_len sent (interface_rows is) = print-Safe ds _
  target_add_reply-Safe cmd error arg_len sent (acl_rows acls) = print-Safe ds _
  target_add_reply-Safe cmd error arg_len sent (interface_payload i) = print-Safe ds _
  target_add_reply-Safe cmd error arg_len sent (mtu_payload m) = print-Safe ds _

  process_reply-Safe : (a : Answer) → Safe ds (process_reply a)
  unfolding process_reply
  process_reply-Safe a =
      if-Safe ds (a.cmd == 0) _ _ (status_reply-Safe a.cmd a.error a.arg_len a.sent a.payload) (
        if-Safe ds (a.cmd == 7) _ _ (print-Safe ds _) (
          if-Safe ds (a.cmd == 8) _ _
            (target_add_reply-Safe a.cmd a.error a.arg_len a.sent a.payload)
            (if-Safe ds (a.cmd == 9) _ _ (print-Safe ds _) (print-Safe ds _))))

  pub recvshowreply-Safe : (r : Reaction) → Safe ds (recvshowreply r)
  unfolding recvshowreply
  recvshowreply-Safe r = bind-Safe ds (readreply r) _ (readreply-Safe r) (λ a.
      if-Safe ds (not (a.error == api_allok)) _ _ (print-Safe ds _) (
        if-Safe ds ((a.cmd == 1) || ((a.cmd == 6) || (a.cmd == 12))) _ _
          (print_all-Safe (row_lines a)) (print-Safe ds _)))

  pub recvcmdreply-Safe : (r : Reaction) → Safe ds (recvcmdreply r)
  unfolding recvcmdreply
  recvcmdreply-Safe r =
      bind-Safe ds (readreply r) _ (readreply-Safe r)
        (λ a. if-Safe ds (not (a.error == api_allok)) _ _ (print-Safe ds _) (process_reply-Safe a))

  pub test_reply-Safe : (r : Reaction) → Safe ds (test_reply r)
  unfolding test_reply
  test_reply-Safe silent = waits-Safe ds
  test_reply-Safe closed = says-Safe _ _ (pure-Safe ds false)
  test_reply-Safe (answers a) = if-Safe ds (ltb 0 a.arg_len && (a.sent == 0)) _ _ (waits-Safe ds) (
      if-Safe ds (not (a.cmd == 0) || not (a.error == api_allok)) _ _
        (says-Safe _ _ (pure-Safe ds false)) (pure-Safe ds true))

  same_interface-Safe : (name : String) (p : Payload) → Safe ds (same_interface name p)
  unfolding same_interface
  same_interface-Safe name (interface_payload info) =
      if-Safe ds (ltb (length (codes info.name)) sizeof_status) _ _
        (if-Safe ds (str_eq info.name name) _ _ (pure-Safe ds true)
          (says-Safe _ _ (pure-Safe ds false)))
        (breaks-Safe ds)
  same_interface-Safe name no_payload = breaks-Safe ds
  same_interface-Safe name (status_payload st) = breaks-Safe ds
  same_interface-Safe name (target_rows ts) = breaks-Safe ds
  same_interface-Safe name (interface_rows is) = breaks-Safe ds
  same_interface-Safe name (acl_rows acls) = breaks-Safe ds
  same_interface-Safe name (mtu_payload m) = breaks-Safe ds
  same_interface-Safe name (target_payload t) = breaks-Safe ds

  pub check_reply-Safe : (name : String) (r : Reaction) → Safe ds (check_reply name r)
  unfolding check_reply
  check_reply-Safe name silent = waits-Safe ds
  check_reply-Safe name closed = says-Safe _ _ (pure-Safe ds false)
  check_reply-Safe name (answers a) =
      if-Safe ds (a.arg_len == 0) _ _ (breaks-Safe ds)
        (if-Safe ds (a.sent == 0) _ _ (waits-Safe ds) (same_interface-Safe name a.payload))
