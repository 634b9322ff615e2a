-- ===== src/Expr.antt =====
-- csrc/sdb/expr.cpp: the expressions of the debugger. Here the token types and the token array.
pub mod Lexer
pub mod Matches
pub mod Fits
pub mod Eval
pub mod Entry
pub mod Brackets
pub mod Items
pub mod Rounds
pub mod LowScan
pub mod HighScan
pub mod Operators
pub mod Syntax
pub mod Correct
pub mod Value
pub mod Printing
pub mod Reading
pub mod Typed
pub mod Errors
mod Examples
use fpga_npc.Base.{ℕ, List, [], get_or}

-- The anonymous `enum` of the file.
abbrev pub tk_notype : ℕ
tk_notype = 256

abbrev pub num : ℕ
num = 257

abbrev pub hex_num : ℕ
hex_num = 258

abbrev pub reg_name : ℕ
reg_name = 259

abbrev pub tk_or : ℕ
tk_or = 260

abbrev pub tk_and : ℕ
tk_and = 261

abbrev pub tk_eq : ℕ
tk_eq = 262

abbrev pub tk_ueq : ℕ
tk_ueq = 263

abbrev pub tk_plus : ℕ
tk_plus = 264

abbrev pub tk_sub : ℕ
tk_sub = 265

abbrev pub tk_mult : ℕ
tk_mult = 266

abbrev pub tk_div : ℕ
tk_div = 267

abbrev pub deref : ℕ
deref = 268

abbrev pub tk_lbracket : ℕ
tk_lbracket = 270

abbrev pub tk_rbracket : ℕ
tk_rbracket = 271

-- `Token`. The array `tokens` with its count `nr_token` is a list; the cells behind the count were
-- cleared by `memset`.
pub record Token : Type 0 where
  pub type : ℕ
  pub str : List ℕ

abbrev pub zero_token : Token
zero_token = record { type = 0; str = [] }

abbrev pub token : ℕ → Token
token t = record { type = t; str = [] }

abbrev pub max_tokens : ℕ
max_tokens = 1024

-- `tokens[i].type`
abbrev pub type_at : List Token → ℕ → ℕ
type_at tokens i = (get_or tokens i zero_token).type
