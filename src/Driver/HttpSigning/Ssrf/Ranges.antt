-- ===== src/Driver/HttpSigning/Ssrf/Ranges.antt =====
-- The blocked IPv4 addresses as a list of blocks of addresses.
use emumet.Driver.HttpSigning.Ssrf.{is_blocked_ipv4}
use emumet.Prelude.{
  ℕ, ◌+◌, ◌*◌, ◌<◌, ◌≤◌, ◌≡◌, sym, ◌∙◌, ◌||◌, any, arith, Bool, ◌&&◌, List, [], ◌∷◌, ◌==◌, ltb, leb,
}

-- an address as a number of 32 bits
abbrev pub address : ℕ → ℕ → ℕ → ℕ → ℕ
address a b c d = a * 0x1000000 + b * 0x10000 + c * 0x100 + d

-- an address is in the block that starts at `base` and holds `size` addresses
abbrev pub in_block : ℕ → ℕ × ℕ → Bool
in_block n (base, size) = leb base n && ltb n (base + size)

-- 0.0.0.0/8, 10.0.0.0/8, 100.64.0.0/10, 127.0.0.0/8, 169.254.0.0/16, 172.16.0.0/12, 192.0.0.0/24,
-- 192.0.2.0/24, 192.168.0.0/16, 198.18.0.0/15, 198.51.100.0/24, 203.0.113.0/24, 224.0.0.0/3
abbrev pub reserved : List (ℕ × ℕ)
reserved =
    (0x00000000, 0x1000000)
    ∷ (0x0a000000, 0x1000000)
    ∷ (0x64400000, 0x400000)
    ∷ (0x7f000000, 0x1000000)
    ∷ (0xa9fe0000, 0x10000)
    ∷ (0xac100000, 0x100000)
    ∷ (0xc0000000, 0x100)
    ∷ (0xc0000200, 0x100)
    ∷ (0xc0a80000, 0x10000)
    ∷ (0xc6120000, 0x20000)
    ∷ (0xc6336400, 0x100)
    ∷ (0xcb007100, 0x100)
    ∷ (0xe0000000, 0x20000000)
    ∷ []

module _ (a b c d : ℕ) (ha : a < 256) (hb : b < 256) (hc : c < 256) (hd : d < 256) where
  in_8 : (p : ℕ) → in_block (address a b c d) (p * 0x1000000, 0x1000000) ≡ (a == p)
  in_8 p = ground (arith, ha, hb, hc, hd)

  in_16 :
      (p q : ℕ)
      → q < 256
      → in_block (address a b c d) (p * 0x1000000 + q * 0x10000, 0x10000) ≡ ((a == p) && (b == q))
  in_16 p q h = ground (arith, ha, hb, hc, hd)

  in_24 :
      (p q r : ℕ)
      → q < 256
      → r < 256
      → in_block (address a b c d) (p * 0x1000000 + q * 0x10000 + r * 0x100, 0x100)
        ≡ ((a == p) && (b == q) && (c == r))
  in_24 p q r h k = ground (arith, ha, hb, hc, hd)

  -- the blocks whose second octet is between two
  in_range :
      (p q n : ℕ)
      → q + n ≤ 256
      → in_block (address a b c d) (p * 0x1000000 + q * 0x10000, n * 0x10000)
        ≡ ((a == p) && leb q b && ltb b (q + n))
  in_range p q n h = ground (arith, ha, hb, hc, hd)

  in_3 : in_block (address a b c d) (0xe0000000, 0x20000000) ≡ leb 224 a
  in_3 = ground (arith, ha, hb, hc, hd)

  -- what the blocks say of the octets
  abbrev in_reserved : Bool
  in_reserved =
      a == 0
      || a == 10
      || (a == 100) && leb 64 b && ltb b 128
      || a == 127
      || (a == 169) && (b == 254)
      || (a == 172) && leb 16 b && ltb b 32
      || (a == 192) && (b == 0) && (c == 0)
      || (a == 192) && (b == 0) && (c == 2)
      || (a == 192) && (b == 168)
      || (a == 198) && leb 18 b && ltb b 20
      || (a == 198) && (b == 51) && (c == 100)
      || (a == 203) && (b == 0) && (c == 113)
      || leb 224 a

  reserved-eq : any (in_block (address a b c d)) reserved ≡ in_reserved
  reserved-eq =
      rw
        (
          in_8 0,
          in_8 10,
          in_range 100 64 64 (omega arith),
          in_8 127,
          in_16 169 254 (omega arith),
          in_range 172 16 16 (omega arith),
          in_24 192 0 0 (omega arith) (omega arith),
          in_24 192 0 2 (omega arith) (omega arith),
          in_16 192 168 (omega arith),
          in_range 198 18 2 (omega arith),
          in_24 198 51 100 (omega arith) (omega arith),
          in_24 203 0 113 (omega arith) (omega arith),
          in_3,
        )
        (ground arith)

  is_blocked_ipv4-eq : is_blocked_ipv4 a b c d ≡ in_reserved
  unfolding is_blocked_ipv4
  is_blocked_ipv4-eq = ground (arith, ha)

  -- An IPv4 address is blocked exactly if it lies in a block of the list.
  pub is_blocked_ipv4-reserved : is_blocked_ipv4 a b c d ≡ any (in_block (address a b c d)) reserved
  is_blocked_ipv4-reserved = is_blocked_ipv4-eq ∙ sym reserved-eq
