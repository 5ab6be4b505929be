-- ===== src/Macros/Syntax.antt =====
-- What the macros use of the syntax trees of `syn`. A part of the user's code that the macros only
-- move, such as the body of a method, is a number.
use Prim.Native.String.{String}
use actix_send.Prelude.{ℕ, Bool, List, Option}
use actix_send.Text.{Text}

abbrev pub Ident : Type 0
Ident = String

-- `Type` with `TypePath` and an empty `TypeTuple`, and `Path` by its segments. `pinned_future send` is
-- `Pin<Box<dyn Future<Output = ()> + '_>>`, with `Send` or without.
mutual
  pub data Ty : Type 0 where
    type_path : Segments → Ty
    empty_tuple : Ty
    pinned_future : Bool → Ty
    other_type : ℕ → Ty

  pub data Segments : Type 0 where
    end : Segments
    segment : Ident → Arguments → Segments → Segments

  pub data Arguments : Type 0 where
    plain : Arguments
    angle_bracketed parenthesized : Tys → Arguments

  pub data Tys : Type 0 where
    no_types : Tys
    type_and : Ty → Tys → Tys

-- `Pat`, where a `PatTupleStruct` has one variable.
pub data Pat : Type 0 where
  pat_ident : Ident → Pat
  tuple_struct : Segments → Ident → Pat
  wild : Pat
  other_pat : ℕ → Pat

-- `Expr`, `Block`, `Stmt` and `Arm`. A call has one argument, a match
-- is on a variable, and `self_method m` is `self.m()`.
mutual
  pub data Expr : Type 0 where
    expr_path : Segments → Expr
    call : Segments → Expr → Expr
    await : Expr → Expr
    async_move : Block → Expr
    move_closure : Block → Expr
    expr_match : Segments → Arms → Expr
    expr_block : Block → Expr
    expr_macro : Segments → Expr
    self_method : Ident → Expr

  pub data Block : Type 0 where
    user : ℕ → Block
    stmts : Stmts → Block

  pub data Stmts : Type 0 where
    no_stmts : Stmts
    stmt_expr : Expr → Stmts
    stmt_local : Ident → Expr → Stmts → Stmts

  pub data Arms : Type 0 where
    no_arms : Arms
    arm : Pat → Expr → Arms → Arms

pub record Attribute : Type 0 where
  pub path : Segments
  pub tokens : Text

pub data FnArg : Type 0 where
  receiver : FnArg
  typed : Pat → Ty → FnArg

pub record Signature : Type 0 where
  pub asyncness : Bool
  pub ident : Ident
  pub inputs : List FnArg
  pub output : Option Ty

-- `ImplItemMethod`
pub record Method : Type 0 where
  pub attrs : List Attribute
  pub sig : Signature
  pub block : Block

pub data ImplItem : Type 0 where
  impl_method : Method → ImplItem
  impl_type : Ident → Ty → ImplItem
  other_impl_item : ℕ → ImplItem

pub record ItemImpl : Type 0 where
  pub attrs : List Attribute
  pub trait_ : Option Segments
  pub self_ty : Ty
  pub items : List ImplItem

-- A variant with one unnamed field.
pub record Variant : Type 0 where
  pub ident : Ident
  pub ty : Ty

pub record ItemEnum : Type 0 where
  pub attrs : List Attribute
  pub ident : Ident
  pub variants : List Variant

-- `ItemStruct` and `ItemType`: the attributes, the name and the rest.
pub record Declared : Type 0 where
  pub attrs : List Attribute
  pub ident : Ident
  pub rest : ℕ

pub data Item : Type 0 where
  item_struct item_type : Declared → Item
  item_impl : ItemImpl → Item
  item_enum : ItemEnum → Item
  other_item : ℕ → Item
