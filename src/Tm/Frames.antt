-- ===== src/Tm/Frames.antt =====
-- The queue of a virtual channel as a sequence of packets, and the data field that a frame takes
-- from it.
use mathlib.Core.Path.{subst}
use akira_ccsds.Base.{ℕ, ◌-◌, ◌≤◌, ◌<◌}
use akira_ccsds.Base.{◌≡◌, refl, sym, ap, ap₂, ◌∙◌, arith}
use akira_ccsds.Base.{List, [], ◌∷◌, ◌++◌}
use akira_ccsds.Base.{length, get_or, All, length-append, concat}
use akira_ccsds.Tm.Build.{packet_total_len}

-- A whole encoded Space Packet.
abbrev pub IsPacket : List ℕ → Type 0
IsPacket p = (7 ≤ length p) × (packet_total_len p ≡ length p)

-- A queue that starts with the last `rem` bytes of a packet, whole packets behind them.
pub record Aligned (rem : ℕ) (queue : List ℕ) : Type 0 where
  pub tail : List ℕ
  pub packets : List (List ℕ)
  pub size : length tail ≡ rem
  pub whole : All IsPacket packets
  pub cut : queue ≡ tail ++ concat packets

cons-tail : (x y : ℕ) (xs ys : List ℕ) → x ∷ xs ≡ y ∷ ys → xs ≡ ys
cons-tail x y xs ys h = cc

split_append :
    (bytes rest tail more : List ℕ)
    → bytes ++ rest ≡ tail ++ more
    → length bytes ≤ length tail
    → (left : List ℕ) × (tail ≡ bytes ++ left) × (rest ≡ left ++ more)
split_append [] rest tail more h fits = (tail, refl, h)
split_append (b ∷ bytes) rest [] more h fits = absurd (omega arith)
split_append (b ∷ bytes) rest (t ∷ tail) more h fits =
    let (left, e, e') =
      split_append bytes rest tail more (cons-tail b t (bytes ++ rest) (tail ++ more) h)
        (omega arith) in
    (left, ap₂ ◌∷◌ (ap (λ l. get_or l 0 0) (sym h)) e, e')

-- What is left of an aligned queue when some of the started packet is taken.
pub Aligned-taken :
    (rem : ℕ) (bytes rest queue : List ℕ)
    → Aligned rem queue
    → queue ≡ bytes ++ rest
    → length bytes ≤ rem
    → Aligned (rem - length bytes) rest
Aligned-taken rem bytes rest queue a e fits =
    let (left, e1, e2) =
      split_append bytes rest a.tail (concat a.packets) (sym e ∙ a.cut)
        (subst (λ t. length bytes ≤ t) (sym a.size) fits) in
    record {
      tail = left;
      packets = a.packets;
      size = omega (arith, ap length e1, length-append bytes left, a.size);
      whole = a.whole;
      cut = e2;
    }

-- The length that a header gives is that of its packet.
packet_total_len-prefix :
    (bytes left : List ℕ)
    → length bytes ≡ 6
    → packet_total_len (bytes ++ left) ≡ packet_total_len bytes
unfolding packet_total_len
packet_total_len-prefix (a ∷ b ∷ c ∷ d ∷ e ∷ f ∷ []) left h = refl
packet_total_len-prefix bytes left h = absurd (omega arith)

header_cut :
    (packets : List (List ℕ)) (bytes rest : List ℕ)
    → All IsPacket packets
    → bytes ++ rest ≡ concat packets
    → length bytes ≡ 6
    → Aligned (packet_total_len bytes - 6) rest
header_cut [] bytes rest whole e six = absurd (omega (arith, ap length e, length-append bytes rest))
header_cut (p ∷ ps) bytes rest whole e six =
    let (left, e1, e2) = split_append bytes rest p (concat ps) e (omega (arith, whole.0.0)) in
    record {
      tail = left;
      packets = ps;
      size = omega (
        arith,
        ap length e1,
        length-append bytes left,
        ap packet_total_len e1,
        packet_total_len-prefix bytes left six,
        whole.0.1,
      );
      whole = whole.1;
      cut = e2;
    }

pub empty_list : (xs : List ℕ) → length xs ≡ 0 → xs ≡ []
empty_list [] h = refl
empty_list (x ∷ xs) h = absurd (omega arith)

-- What is left when a header is taken where a packet starts.
pub Aligned-header :
    (bytes rest queue : List ℕ)
    → Aligned 0 queue
    → queue ≡ bytes ++ rest
    → length bytes ≡ 6
    → Aligned (packet_total_len bytes - 6) rest
Aligned-header bytes rest queue a e six =
    header_cut a.packets bytes rest a.whole
      (sym e ∙ (a.cut ∙ ap (λ t. t ++ concat a.packets) (empty_list a.tail a.size))) six

-- Where packets start, a queue is empty or has a header.
pub Aligned-has_header : (queue : List ℕ) → Aligned 0 queue → 0 < length queue → 6 ≤ length queue
Aligned-has_header queue a some_left =
    has a.packets a.whole (a.cut ∙ ap (λ t. t ++ concat a.packets) (empty_list a.tail a.size))
  where
    has : (ps : List (List ℕ)) → All IsPacket ps → queue ≡ concat ps → 6 ≤ length queue
    has [] whole e = absurd (omega (arith, ap length e))
    has (p ∷ ps) whole e = omega (arith, ap length e, length-append p (concat ps), whole.0.0)

-- The rest of a started packet is queued.
pub Aligned-rem : (rem : ℕ) (queue : List ℕ) → Aligned rem queue → rem ≤ length queue
Aligned-rem rem queue a =
    omega (arith, a.size, ap length a.cut, length-append a.tail (concat a.packets))
