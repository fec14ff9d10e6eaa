-- ===== src/Block/Wire/RoundTrip.antt =====
-- crates/abi/src/block/request.rs and geometry.rs: the records of a request and of a
-- geometry, encoded and then decoded.
use rustic_os.Base.{
  ◌^◌, ◌<◌, ◌≡◌, refl, ok, true, false, ◌==◌, bit_and, arith, Bool-cases, inl, inr,
}
use rustic_os.Base.Bits.{complement}
use rustic_os.Base.Bytes.{le, from_le, from_le-le}
use rustic_os.Block.Abi.{Operation, all}
use rustic_os.Block.Wire.{
  Geometry, decode_geometry, encode_geometry, Request, check_request, decode_request,
  encode_request, parse_operation, operation_number,
}

parse_operation-operation_number : (o : Operation) → parse_operation (operation_number o) ≡ ok o
unfolding parse_operation
parse_operation-operation_number Operation.read = refl
parse_operation-operation_number Operation.write = refl
parse_operation-operation_number Operation.flush = refl

-- An operation's two bytes.
read_operation : (o : Operation) → from_le (le 2 (operation_number o)) ≡ operation_number o
read_operation Operation.read = refl
read_operation Operation.write = refl
read_operation Operation.flush = refl

-- The kernel reads back a request that a program encodes, if its fields fit and its operation allows
-- them.
pub decode_request-encode_request :
    (r : Request)
    → r.sector < 2 ^ 64
    → r.address < 2 ^ 64
    → r.length_of < 2 ^ 32
    → check_request r ≡ ok r
    → decode_request (encode_request r) ≡ ok r
unfolding decode_request encode_request
decode_request-encode_request r hs ha hn fine =
    rw
      (
        read_operation r.operation,
        parse_operation-operation_number r.operation,
        from_le-le 8 r.sector hs,
        from_le-le 8 r.address ha,
        from_le-le 4 r.length_of hn,
      )
      fine

-- A program reads back the geometry that the kernel encodes, if it has sectors and their number fits,
-- and its rights are a byte that grants something and nothing unknown.
pub decode_geometry-encode_geometry :
    (g : Geometry)
    → g.sectors < 2 ^ 64
    → g.rights < 2 ^ 8
    → (g.sectors == 0) ≡ false
    → (g.rights == 0) ≡ false
    → (bit_and g.rights (complement 32 all) == 0) ≡ true
    → decode_geometry (encode_geometry g) ≡ ok g
unfolding decode_geometry encode_geometry
decode_geometry-encode_geometry g hs hr some_sectors some_rights known =
    elim (Bool-cases g.read_only) [
      | inl e ↦ rw (
        from_le-le 4 g.rights (omega arith),
        from_le-le 8 g.sectors hs,
        e,
        some_rights,
        known,
        some_sectors,
      )
      | inr e ↦ rw (
        from_le-le 4 g.rights (omega arith),
        from_le-le 8 g.sectors hs,
        e,
        some_rights,
        known,
        some_sectors,
      )
    ]
