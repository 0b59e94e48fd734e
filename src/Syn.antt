-- ===== src/Syn.antt =====
-- What hsmc-macros/src/parse.rs asks of the third-party crate syn, as a parameter. A stream of
-- `proc_macro2::TokenStream` is its token trees; a punctuation that parse.rs looks for is one token.
-- The laws are what syn documents of these calls.
use Prim.Native.String.{String}
use hsmc.Prelude.{
  ℕ, ◌+◌, ◌<◌, ◌≡◌, Bool, true, false, Option, none, some, List, [], ◌∷◌, All, if◌then◌else◌,
}

pub data Delimiter : Type 0 where
  brace paren : Delimiter

pub data Punct : Type 0 where
  colon semi comma arrow path_sep : Punct

-- Each constructor but `done` stands for a token tree and the tokens that follow it.
pub data Tokens : Type 0 where
  done : Tokens
  ident : (name : String) → Tokens → Tokens
  punct : Punct → Tokens → Tokens
  literal : (text : String) → Tokens → Tokens
  group : Delimiter → (inner : Tokens) → Tokens → Tokens

-- `ParseStream::is_empty`
abbrev pub is_empty : Tokens → Bool
is_empty done = true
is_empty (ident name rest) = false
is_empty (punct p rest) = false
is_empty (literal text rest) = false
is_empty (group d inner rest) = false

unfoldable pub size : Tokens → ℕ
size done = 0
size (ident name rest) = 1 + size rest
size (punct p rest) = 1 + size rest
size (literal text rest) = 1 + size rest
size (group d inner rest) = 1 + (size inner + size rest)

-- A type ends at the end of the stream, at a `;` or at a `,`.
pub data EndsType : Tokens → Type 0 where
  at_end : EndsType done
  at_semi : (rest : Tokens) → EndsType (punct semi rest)
  at_comma : (rest : Tokens) → EndsType (punct comma rest)

-- The names of the items, none of which is a keyword of Rust, and the modes of a timer.
abbrev pub item_names : List String
item_names =
    "context" ∷ "events" ∷ "trace" ∷ "entry" ∷ "exit" ∷ "default" ∷ "terminate" ∷ "on" ∷ "during"
    ∷ "state" ∷ "every" ∷ "after" ∷ []

-- The parsers return what they read with the tokens that are left; `none` is an error. `parse_type` and
-- `parse_expr` return the text that stands for the type or the expression.
pub record Syn : Type 0 where
  -- which words are identifiers and not keywords
  pub accepts : String → Bool
  -- `input.parse::<Ident>()`
  pub parse_ident : Tokens → Option (String × Tokens)
  -- `input.parse::<Token![..]>()`
  pub parse_punct : Punct → Tokens → Option Tokens
  -- `braced!` and `parenthesized!`
  pub parse_group : Delimiter → Tokens → Option (Tokens × Tokens)
  -- `input.parse::<Type>()` and `input.parse::<Expr>()`
  pub parse_type : Tokens → Option (String × Tokens)
  pub parse_expr : Tokens → Option (String × Tokens)
  -- `Expr::Lit` with `Lit::Int` or `Lit::Float`, and `quote! { #e }.to_string()`
  pub is_number : String → Bool
  pub to_text : String → String
  -- the tokens of a type and of an expression
  pub type_tokens : String → Tokens → Tokens
  pub expr_tokens : String → Tokens
  pub accepts_items : All (λ w. accepts w ≡ true) item_names
  pub ident_read :
      (s : String) (ts : Tokens)
      → parse_ident (ident s ts) ≡ (if accepts s then some (s, ts) else none)
  pub ident_accepted :
      (ts : Tokens) (s : String) (rest : Tokens)
      → parse_ident ts ≡ some (s, rest)
      → accepts s ≡ true
  pub punct_read : (p : Punct) (ts : Tokens) → parse_punct p (punct p ts) ≡ some ts
  pub punct_done : (p : Punct) → parse_punct p done ≡ none
  pub punct_group :
      (p : Punct) (d : Delimiter) (inner ts : Tokens) → parse_punct p (group d inner ts) ≡ none
  pub comma_semi : (ts : Tokens) → parse_punct comma (punct semi ts) ≡ none
  pub group_read :
      (d : Delimiter) (inner ts : Tokens) → parse_group d (group d inner ts) ≡ some (inner, ts)
  pub paren_brace : (inner ts : Tokens) → parse_group brace (group paren inner ts) ≡ none
  pub type_read :
      (t : String) (ts : Tokens) → EndsType ts → parse_type (type_tokens t ts) ≡ some (t, ts)
  pub expr_read : (e : String) → parse_expr (expr_tokens e) ≡ some (e, done)
  -- what is read is gone
  pub ident_shrinks :
      (ts : Tokens) (s : String) (rest : Tokens)
      → parse_ident ts ≡ some (s, rest)
      → size rest < size ts
  pub punct_shrinks :
      (p : Punct) (ts rest : Tokens) → parse_punct p ts ≡ some rest → size rest < size ts
  pub group_shrinks :
      (d : Delimiter) (ts inner rest : Tokens)
      → parse_group d ts ≡ some (inner, rest)
      → size inner + size rest < size ts
  pub type_shrinks :
      (ts : Tokens) (t : String) (rest : Tokens)
      → parse_type ts ≡ some (t, rest)
      → size rest < size ts
  pub expr_shrinks :
      (ts : Tokens) (e : String) (rest : Tokens)
      → parse_expr ts ≡ some (e, rest)
      → size rest < size ts
