-- ===== src/Bech32/Regroup.antt =====
-- `_convertbits` keeps the bits of its data: the digits of the groups that it returns are the digits
-- of the data, in order. `Bits` has the digits of a number, `Loop` the loops of the function.
pub mod Bits
pub mod Loop
pub mod Inverse
