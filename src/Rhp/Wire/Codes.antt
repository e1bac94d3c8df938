-- ===== src/Rhp/Wire/Codes.antt =====
-- The error codes of crates/rhpv2/src/errors.rs: `errcode_name` beside `errcode_to_errno`.
use pdn_libax.Prelude.{ℕ, ◌≡◌, ◌↔◌, arith, codes}
use pdn_libax.Prelude.Errno.{eio}
use pdn_libax.Rhp.Wire.{errcode_name, errcode_to_errno}

-- The two tables of error codes have the same rows: a code without a name is one that becomes EIO.
pub errcode_name-errcode_to_errno :
    (errcode : ℕ) → (errcode_name errcode ≡ codes "Unspecified") ↔ (errcode_to_errno errcode ≡ eio)
unfolding errcode_name errcode_to_errno
errcode_name-errcode_to_errno errcode = ground arith
