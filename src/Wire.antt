-- ===== src/Wire.antt =====
-- Packets: the header of vrr.h and its build in vrr_core.c, the words of a payload in network
-- order, and how the receivers of vrr_input.c read them.
--
-- `htonl x` is the four bytes that the host stores for it, and `ntohl` what the host makes of four
-- bytes read back. A read past the end of the packet fails in the kernel's `skb_copy_bits`, whose
-- result the code ignores: the variable then keeps what it held, which is `junk`.
pub mod Words
use alpaca_vrr.Base.{
  ℕ, ◌+◌, ◌*◌, ◌/◌, ◌%◌, ◌^◌, zero, suc, List, [], ◌∷◌, ◌++◌, leb, ◌==◌, if◌then◌else◌, length, map,
}

unfoldable pub htonl : ℕ → List ℕ
htonl x = (x / 0x100_0000 % 256) ∷ (x / 0x1_0000 % 256) ∷ (x / 0x100 % 256) ∷ (x % 256) ∷ []

unfoldable pub htons : ℕ → List ℕ
htons x = (x / 0x100 % 256) ∷ (x % 256) ∷ []

-- The number that big-endian bytes stand for: `ntohl`, `ntohs`.
unfoldable pub ntoh : ℕ → List ℕ → ℕ
ntoh acc [] = acc
ntoh acc (b ∷ bs) = ntoh (acc * 256 + b) bs

abbrev pub ntohl : List ℕ → ℕ
ntohl bs = ntoh 0 bs

abbrev pub vrr_data : ℕ
vrr_data = 0

abbrev pub vrr_hello : ℕ
vrr_hello = 1

abbrev pub vrr_setup_req : ℕ
vrr_setup_req = 2

abbrev pub vrr_setup : ℕ
vrr_setup = 3

abbrev pub vrr_setup_fail : ℕ
vrr_setup_fail = 4

abbrev pub vrr_teardown : ℕ
vrr_teardown = 5

abbrev pub vrr_nptypes : ℕ
vrr_nptypes = 6

abbrev pub pf_vrr : ℕ
pf_vrr = 27

-- struct vrr_packet
pub record VrrPacket : Type 0 where
  pub src : ℕ
  pub dst : ℕ
  pub data_len : ℕ
  pub pkt_type : ℕ
  pub dest_mac : List ℕ

-- struct vrr_header, the fields of two and four bytes as they lie in memory
pub record VrrHeader : Type 0 where
  pub vrr_version : ℕ
  pub pkt_type : ℕ
  pub protocol : List ℕ
  pub data_len : List ℕ
  pub free : ℕ
  pub h_csum : ℕ
  pub src_id : List ℕ
  pub dest_id : List ℕ
  pub dest_mac : List ℕ

abbrev pub broadcast : List ℕ
broadcast = 255 ∷ 255 ∷ 255 ∷ 255 ∷ 255 ∷ 255 ∷ []

-- The header for a packet; `data_len` of the packet is a u16.
unfoldable pub build_header : ℕ → VrrPacket → VrrHeader
unfolding htonl htons
build_header version vpkt = record {
  vrr_version = version;
  pkt_type = vpkt.pkt_type;
  protocol = htons pf_vrr;
  data_len = htons (vpkt.data_len % 0x1_0000);
  free = 0;
  h_csum = 0;
  src_id = htonl vpkt.src;
  dest_id = htonl vpkt.dst;
  dest_mac = if vpkt.pkt_type == vrr_hello then broadcast else vpkt.dest_mac;
}

-- A socket buffer: the header, the bytes behind it, and, for a received one, the link layer's
-- source address and the address of the device that it came in by.
pub record Skb : Type 0 where
  pub header : VrrHeader
  pub payload : List ℕ
  pub source_mac : List ℕ
  pub dev_addr : List ℕ

-- The loops that pack words.
unfoldable pub put_words : List ℕ → List ℕ
unfolding htonl
put_words [] = []
put_words (x ∷ xs) = htonl x ++ put_words xs

-- `skb_copy_bits` of one word at the offset, `ntohl`, and the offset moved on.
unfoldable pub read_word : ℕ → List ℕ → ℕ × List ℕ
read_word junk (a ∷ b ∷ c ∷ d ∷ rest) = (ntoh 0 (a ∷ b ∷ c ∷ d ∷ []), rest)
read_word junk _ = (junk, [])

abbrev pub get_words : ℕ → (ℕ → ℕ) → List ℕ → List ℕ
get_words zero junk bytes = []
get_words (suc n) junk bytes = let (x, rest) = read_word (junk n) bytes in x ∷ get_words n junk rest

abbrev pub skip_words : ℕ → List ℕ → List ℕ
skip_words zero bytes = bytes
skip_words (suc n) bytes = skip_words n (read_word 0 bytes).1

-- `skb_copy_bits` of `n` words at once, which copies all or nothing, and `ntohl` of each.
unfoldable pub read_words : (ℕ → ℕ) → ℕ → List ℕ → List ℕ × List ℕ
unfolding read_word
read_words junk n bytes =
    if leb (n * 4) (length bytes)
    then (get_words n junk bytes, skip_words n bytes)
    else (get_words n junk [], [])

-- A stub: it leaves the buffer as it is.
abbrev rmv_vrr_header : Skb → ℕ × Skb
rmv_vrr_header skb = (1, skb)
