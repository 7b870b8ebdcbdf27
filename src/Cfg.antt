-- ===== src/Cfg.antt =====
-- devices.c: the handler of CFG requests (qaoed_processCFG).
pub mod Answer
pub mod Store
pub mod Match
use qaoed.Base.{
  ℕ, ◌+◌, ◌-◌, ◌/◌, ◌%◌, ◌^◌, ℤ, to_size, List, [], ◌∷◌, ◌++◌, Option, none, some, Bool, true,
  false, not, ◌||◌, ◌&&◌, bit_and, bit_or, Outcome, done, fault, valid, ◌>>=◌, ◌==◌, ltb, leb,
  if◌then◌else◌, length, take, drop, get_elem?, same_bytes,
}
use qaoed.Wire.{
  CfgFrame, AoeHdr, aoe_cfghdr_size, aoe_atahdr_size, aoe_flag_err, aoe_err_badcmd, aoe_err_badarg,
  aoe_err_cfg_set, aoe_cfg_read, aoe_cfg_match, aoe_cfg_match_partial, aoe_cfg_set_if_empty,
  aoe_cfg_set,
}
use qaoed.Conf.{AoeDev}
use qaoed.Memory.{workdestroy}
use qaoed.Device.{Machine, Frame, cfg, World, Setting, read_buffer, refused, createpkt, xmit}

abbrev pub command : CfgFrame → ℕ
command request = bit_and request.aoever_cmd 0x0f

-- `(mtu - sizeof (struct aoe_atahdr)) / 512` as an unsigned char: the `int` meets a `size_t`.
unfoldable pub maxsect : ℤ → ℕ
maxsect mtu = (to_size mtu + 2 ^ 64 - aoe_atahdr_size) % 2 ^ 64 / 512 % 256

-- The `cfg` of a device after `memcpy(dev->cfg, bytes, n)`.
unfoldable pub overlay : List ℕ → List ℕ → List ℕ
overlay bytes old = bytes ++ drop (length bytes) old

-- `reply->aoehdr.ver_flags |= AOE_FLAG_ERR; reply->aoehdr.error |= code;`
abbrev pub flag_error : ℕ → CfgFrame → CfgFrame
flag_error code reply = record reply {
  aoehdr = record reply.aoehdr {
    ver_flags = bit_or reply.aoehdr.ver_flags aoe_flag_err;
    error = bit_or reply.aoehdr.error code;
  };
}

abbrev pub is_cfg_query : ℕ → Bool
is_cfg_query c = (c == aoe_cfg_read) || ((c == aoe_cfg_match) || (c == aoe_cfg_match_partial))

abbrev pub is_cfg_store : ℕ → Bool
is_cfg_store c = (c == aoe_cfg_set_if_empty) || (c == aoe_cfg_set)

module _ (mc : Machine) where
  open mc use {Disk}

  -- The access list that the command is checked against.
  unfoldable pub check_access : Setting → AoeDev → CfgFrame → Outcome Bool
  check_access st dev request =
      if is_cfg_query (command request)
      then refused st dev.cfgracl request.aoehdr.eth.h_source
      else if is_cfg_store (command request)
      then refused st dev.cfgsetacl request.aoehdr.eth.h_source
      else done false

  -- The reply with the device's string.
  unfoldable pub with_string : AoeDev → CfgFrame → Outcome CfgFrame
  with_string dev reply = do
    bytes ← read_buffer dev.cfg_len dev.cfg
    done (record reply { cfg_len = mc.host.htons dev.cfg_len; cfg = bytes })

  -- `memcpy(dev->cfg, request->cfg, n); dev->cfg_len = n;`
  unfoldable pub store : AoeDev → ℕ → CfgFrame → Outcome AoeDev
  store dev n request = do
    bytes ← read_buffer n request.cfg
    done (record dev { cfg_len = n; cfg = overlay bytes dev.cfg })

  -- What a command comes to: the device, and the reply if one is sent.
  abbrev pub Effect : Type 0
  Effect = AoeDev × Option CfgFrame

  -- `memcmp(dev->cfg, request->cfg, n) == 0`
  unfoldable pub same_string : ℕ → AoeDev → CfgFrame → Outcome Bool
  same_string n dev request = do
    ours ← read_buffer n dev.cfg
    theirs ← read_buffer n request.cfg
    done (same_bytes ours theirs)

  -- The end of both match commands.
  unfoldable pub answer_if : Bool → AoeDev → CfgFrame → Outcome Effect
  answer_if false dev reply = done (dev, none)
  answer_if true dev reply = do r ← with_string dev reply; done (dev, some r)

  -- `request->cfg_len` is compared as it stands in the frame, without `ntohs`.
  unfoldable pub cfg_match : AoeDev → CfgFrame → CfgFrame → Outcome Effect
  cfg_match dev request reply =
      if request.cfg_len == dev.cfg_len
      then same_string dev.cfg_len dev request >>= (λ same. answer_if same dev reply)
      else done (dev, none)

  unfoldable pub cfg_match_partial : AoeDev → CfgFrame → CfgFrame → Outcome Effect
  cfg_match_partial dev request reply =
      same_string (mc.host.ntohs request.cfg_len) dev request >>= (λ same. answer_if same dev reply)

  unfoldable pub cfg_set : AoeDev → CfgFrame → CfgFrame → Outcome Effect
  cfg_set dev request reply =
      let n = mc.host.ntohs request.cfg_len in
      if leb n 1024
      then store dev n request >>= (λ dev'. done (dev', some reply))
      else done (dev, some (flag_error aoe_err_badarg reply))

  unfoldable pub cfg_set_if_empty : AoeDev → CfgFrame → CfgFrame → Outcome Effect
  cfg_set_if_empty dev request reply =
      let n = mc.host.ntohs request.cfg_len in
      if (dev.cfg_len == 0) && leb n 1024
      then store dev n request >>= (λ dev'. done (dev', some reply))
      else done (dev, some (flag_error aoe_err_cfg_set reply))

  unfoldable pub cfg_read : AoeDev → CfgFrame → Outcome Effect
  cfg_read dev reply = do r ← with_string dev reply; done (dev, some r)

  -- The second `switch` of `qaoed_processCFG`.
  unfoldable pub answer : AoeDev → CfgFrame → CfgFrame → Outcome Effect
  answer dev request reply =
      let c = command request in
      if c == aoe_cfg_read
      then cfg_read dev reply
      else if c == aoe_cfg_match
      then cfg_match dev request reply
      else if c == aoe_cfg_match_partial
      then cfg_match_partial dev request reply
      else if c == aoe_cfg_set_if_empty
      then cfg_set_if_empty dev request reply
      else if c == aoe_cfg_set
      then cfg_set dev request reply
      else done (dev, some (flag_error aoe_err_badcmd reply))

  -- The reply before its command is carried out.
  unfoldable pub begin_reply : ℤ → CfgFrame → AoeHdr → CfgFrame
  begin_reply mtu request aoehdr = record {
    aoehdr = aoehdr;
    queuelen = mc.host.htons 20;
    firmware = mc.host.htons 0x400a;
    maxsect = maxsect mtu;
    aoever_cmd = bit_or (command request) 0x10;
    cfg_len = 0;
    cfg = [];
  }

  -- A reply is as long as its header and its string.
  unfoldable pub send_reply : Setting → ℕ → Option CfgFrame → World Disk → Outcome (World Disk)
  send_reply st ifentry none s = done s
  send_reply st ifentry (some reply) s =
      xmit st ifentry (cfg reply) (aoe_cfghdr_size + length reply.cfg) s

  -- From `qaoed_createpkt` to the transmission; if there is no memory for a reply, nothing is sent.
  unfoldable pub respond :
      Setting → AoeDev → ℕ → CfgFrame → Option AoeHdr → World Disk → Outcome (AoeDev × World Disk)
  respond st dev ifentry request none s = done (dev, s)
  respond st dev ifentry request (some aoehdr) s = do
    iface ← valid (get_elem? st.intlist ifentry)
    (dev', reply) ← answer dev request (begin_reply iface.mtu request aoehdr)
    s' ← send_reply st ifentry reply s
    done (dev', s')

  unfoldable pub process_cfg :
      Bool → Setting → AoeDev → ℕ → ℕ → CfgFrame → World Disk → Outcome (AoeDev × World Disk)
  process_cfg allocated st dev w ifentry request s = do
    no_access ← check_access st dev request
    (dev', s') ←
        if no_access
        then done (dev, s)
        else respond st dev ifentry request (createpkt mc allocated dev request.aoehdr) s
    mem ← workdestroy (some w) s'.mem
    done (dev', record s' { mem = mem })
