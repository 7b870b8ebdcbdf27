-- ===== src/Device/Reply.antt =====
-- The header of a reply, and what a handler sends.
use qaoed.Base.{
  ℕ, ◌<◌, ◌≡◌, refl, ◌++◌, [], ◌∷◌, List, Option, none, some, true, not, bit_and, bit_or, ◌==◌,
  arith, Outcome, done, all_below, all_below_sound, ◌&&◌, get_elem?, replicate,
}
use qaoed.Wire.{AoeHdr, aoe_flag_rsp, aoe_flag_err}
use qaoed.Conf.{Ifst, AoeDev}
use qaoed.Device.{
  Machine, Frame, ata, identify, cfg, World, Setting, createpkt, set_source, stamp, xmit,
}

abbrev pub header_of : Frame → AoeHdr
header_of (ata f) = f.aoehdr
header_of (identify f id) = f.aoehdr
header_of (cfg f) = f.aoehdr

-- The response flag is set.
abbrev pub IsMarked : ℕ → Type 0
IsMarked ver_flags = not (bit_and ver_flags aoe_flag_rsp == 0) ≡ true

-- A header that answers the request: it goes to the sender, from the address of the interface if that
-- is known, with the request's tag and command and the address of the device.
pub record IsReplyTo (mc : Machine) (dev : AoeDev) (request : AoeHdr) (h : AoeHdr) : Type 0 where
  pub dest : h.eth.h_dest ≡ request.eth.h_source
  pub proto : h.eth.h_proto ≡ request.eth.h_proto
  pub tag : h.tag ≡ request.tag
  pub cmd : h.cmd ≡ request.cmd
  pub shelf : h.shelf ≡ mc.host.htons dev.shelf
  pub slot : h.slot ≡ dev.slot
  pub marked : IsMarked h.ver_flags

mark_table :
    all_below 256 (λ v.
      not (bit_and (bit_or (bit_or v 0x10) 8) 8 == 0)
      && not (bit_and (bit_or (bit_or (bit_or v 0x10) 8) 4) 8 == 0))
    ≡ true
unfolding all_below
mark_table = refl

-- The flags of a reply, with or without the error flag.
pub marks :
    (v : ℕ)
    → v < 256
    → IsMarked (bit_or (bit_or v 0x10) 8) × IsMarked (bit_or (bit_or (bit_or v 0x10) 8) 4)
marks v h = ground (
  arith,
  all_below_sound 256
      (λ v.
        not (bit_and (bit_or (bit_or v 0x10) 8) 8 == 0)
        && not (bit_and (bit_or (bit_or (bit_or v 0x10) 8) 4) 8 == 0))
      v mark_table h,
)

-- The header that `createpkt` makes.
abbrev pub reply_header : Machine → AoeDev → AoeHdr → AoeHdr
reply_header mc dev request = record request {
  eth = record request.eth { h_dest = request.eth.h_source; h_source = replicate 6 0 };
  ver_flags = bit_or (bit_or request.ver_flags 0x10) aoe_flag_rsp;
  shelf = mc.host.htons dev.shelf;
  slot = dev.slot;
}

pub createpkt-some :
    (mc : Machine) (dev : AoeDev) (request : AoeHdr)
    → createpkt mc true dev request ≡ some (reply_header mc dev request)
unfolding createpkt
createpkt-some mc dev request = refl

pub reply_header-IsReplyTo :
    (mc : Machine) (dev : AoeDev) (request : AoeHdr)
    → request.ver_flags < 256
    → IsReplyTo mc dev request (reply_header mc dev request)
reply_header-IsReplyTo mc dev request h = record {
  dest = refl;
  proto = refl;
  tag = refl;
  cmd = refl;
  shelf = refl;
  slot = refl;
  marked = (marks request.ver_flags h).0;
}

-- The error flag and an error code change nothing of that.
pub error_header-IsReplyTo :
    (mc : Machine) (dev : AoeDev) (request : AoeHdr) (code : ℕ)
    → request.ver_flags < 256
    → IsReplyTo mc dev request (record (reply_header mc dev request) {
      ver_flags = bit_or (bit_or (bit_or request.ver_flags 0x10) aoe_flag_rsp) aoe_flag_err;
      error = code;
    })
error_header-IsReplyTo mc dev request code h = record {
  dest = refl;
  proto = refl;
  tag = refl;
  cmd = refl;
  shelf = refl;
  slot = refl;
  marked = (marks request.ver_flags h).1;
}

set_source-IsReplyTo :
    (mc : Machine) (dev : AoeDev) (request h : AoeHdr) (hwaddr : Option (List ℕ))
    → IsReplyTo mc dev request h
    → IsReplyTo mc dev request (set_source hwaddr h)
unfolding set_source
set_source-IsReplyTo mc dev request h none r = r
set_source-IsReplyTo mc dev request h (some a) r = record {
  dest = r.dest;
  proto = r.proto;
  tag = r.tag;
  cmd = r.cmd;
  shelf = r.shelf;
  slot = r.slot;
  marked = r.marked;
}

stamp-IsReplyTo :
    (mc : Machine) (dev : AoeDev) (request : AoeHdr) (hwaddr : Option (List ℕ)) (f : Frame)
    → IsReplyTo mc dev request (header_of f)
    → IsReplyTo mc dev request (header_of (stamp hwaddr f))
unfolding stamp
stamp-IsReplyTo mc dev request hwaddr (ata f) r =
    set_source-IsReplyTo mc dev request f.aoehdr hwaddr r
stamp-IsReplyTo mc dev request hwaddr (identify f id) r =
    set_source-IsReplyTo mc dev request f.aoehdr hwaddr r
stamp-IsReplyTo mc dev request hwaddr (cfg f) r =
    set_source-IsReplyTo mc dev request f.aoehdr hwaddr r

-- A call that leaves the heap alone and sends one frame, an answer to the request on the interface.
pub record Answers {D : Type 0} (mc : Machine) (dev : AoeDev) (request : AoeHdr) (ifentry : ℕ)
    (s : World D) (r : Outcome (World D)) : Type 0 where
  pub after : World D
  pub frame : Frame
  pub len : ℕ
  pub returns : r ≡ done after
  pub mem : after.mem ≡ s.mem
  pub sent : after.sent ≡ s.sent ++ (record { ifentry = ifentry; frame = frame; len = len } ∷ [])
  pub reply : IsReplyTo mc dev request (header_of frame)

-- `xmit` on a known interface sends the frame.
pub xmit-Answers :
    {D : Type 0} (mc : Machine) (dev : AoeDev) (request : AoeHdr) (st : Setting) (ifentry : ℕ)
    (i : Ifst) (f : Frame) (len : ℕ) (s : World D)
    → get_elem? st.intlist ifentry ≡ some i
    → IsReplyTo mc dev request (header_of f)
    → Answers mc dev request ifentry s (xmit st ifentry f len s)
unfolding xmit
xmit-Answers mc dev request st ifentry i f len s known r = record {
  after = record s {
    sent = s.sent ++ (record { ifentry = ifentry; frame = stamp i.hwaddr f; len = len } ∷ []);
  };
  frame = stamp i.hwaddr f;
  len = len;
  returns = rw known;
  mem = refl;
  sent = refl;
  reply = stamp-IsReplyTo mc dev request i.hwaddr f r;
}
