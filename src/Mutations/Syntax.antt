-- ===== src/Mutations/Syntax.antt =====
-- The part of Python's syntax trees that mcp_server/mutations.py looks at.
use Prim.Native.Char.{code}
use dbwarden_harness.Base.{
  ℕ, String, Bool, true, false, ◌&&◌, ◌||◌, Option, List, [], ◌∷◌, ◌==◌, string_eq, nat_eq, leb,
  contains,
}
use dbwarden_harness.Base.Json.{Json}

mutual
  -- `other` is any other expression, by its text. A dictionary is kept by its text as well.
  pub data Expr : Type 0 where
    name : String → Expr
    constant : Json → Expr
    call : Expr → Exprs → Keywords → Expr
    tuple : Exprs → Expr
    dictionary : String → Expr
    other : String → Expr

  pub data Exprs : Type 0 where
    no_exprs : Exprs
    expr : Expr → Exprs → Exprs

  -- A keyword argument; `**value` has no name.
  pub data Keywords : Type 0 where
    no_keywords : Keywords
    keyword : Option String → Expr → Keywords → Keywords

-- A statement in a class.
pub data Item : Type 0 where
  assign : List Expr → Expr → Item
  annotated : Expr → Expr → Option Expr → Item
  plain : String → Item

-- A statement of the module. A class is the text of its head and its body.
pub data Node : Type 0 where
  class_def : String → List Item → Node
  import_from : String → List (String × Option String) → Node
  item : Item → Node

abbrev is_letter : ℕ → Bool
is_letter c = (leb 65 c && leb c 90) || (leb 97 c && leb c 122) || c == 95

abbrev is_digit : ℕ → Bool
is_digit c = leb 48 c && leb c 57

all_word : String → Bool
all_word String.[] = true
all_word (String.◌∷◌ c s) = (is_letter (code c) || is_digit (code c)) && all_word s

-- `str.isidentifier` on ASCII.
unfoldable pub is_identifier : String → Bool
unfolding all_word
is_identifier String.[] = false
is_identifier (String.◌∷◌ c s) = is_letter (code c) && all_word s

-- `keyword.iskeyword`
unfoldable pub is_keyword : String → Bool
is_keyword s =
    contains
      ("False" ∷ "None" ∷ "True" ∷ "and" ∷ "as" ∷ "assert" ∷ "async" ∷ "await" ∷ "break" ∷ "class"
        ∷ "continue" ∷ "def" ∷ "del" ∷ "elif" ∷ "else" ∷ "except" ∷ "finally" ∷ "for" ∷ "from"
        ∷ "global" ∷ "if" ∷ "import" ∷ "in" ∷ "is" ∷ "lambda" ∷ "nonlocal" ∷ "not" ∷ "or" ∷ "pass"
        ∷ "raise" ∷ "return" ∷ "try" ∷ "while" ∷ "with" ∷ "yield" ∷ [])
      s
