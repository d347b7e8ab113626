-- ===== src/Sql/Syntax.antt =====
-- pkg/sqldsl/sqldsl.go: the syntax tree of a statement.
use go_es.Prelude.{ℕ, Bool, Option, List, Text}

-- A literal: a string, a whole number, or the text of a number with a point.
pub data Literal : Type 0 where
  string_value : Text → Literal
  int_value : ℕ → Literal
  float_value : Text → Literal

-- The two operators of `BinOp`.
pub data Junction : Type 0 where
  junction_and junction_or : Junction

-- The expressions without parts of their own: `Compare`, `InExpr` and `LikeExpr`.
pub data Test : Type 0 where
  compare_test : (field op : Text) → Literal → Test
  in_test : Text → List Literal → Test
  like_test : (field prefix : Text) → Test

pub data Expr : Type 0 where
  test : Test → Expr
  bin_op : Junction → Expr → Expr → Expr

pub record FieldRef : Type 0 where
  pub expr : Text
  pub alias : Text
  pub is_count : Bool

pub record OrderTerm : Type 0 where
  pub field : Text
  pub desc : Bool

pub record SelectStmt : Type 0 where
  pub fields : List FieldRef
  pub all : Bool
  pub from_index : Text
  pub cond : Option Expr
  pub limit : ℕ
  pub offset : ℕ
  pub order_by : List OrderTerm
