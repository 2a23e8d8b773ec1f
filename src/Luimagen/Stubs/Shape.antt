-- ===== src/Luimagen/Stubs/Shape.antt =====
-- luimagen/patch.go: what `isStub` takes for a stub.
use luima.Prelude.{
  Bool, true, false, List, [], ◌∷◌, ◌++◌, Option, none, some, ◌≡◌, refl, ◌≢◌, ◌↔◌, sym, ap, ◌⊎◌,
  inl, inr, Text, codes, text_eq, text_eq_iff, text_eq_self, Option-cases, arith, subst,
}
use luima.Luimagen.Runes.{after_prefix, after_prefix-eq-some, after_prefix-append}
use luima.Luimagen.Syntax.{
  Node, ident, string_lit, call_expr, star_expr, expr_stmt, type_spec, struct_type, other, Nodes,
  nil, cons, FuncDecl, Body,
}
use luima.Luimagen.Stubs.{
  literal, panic_message, not_implemented, has_prefix, is_stub_stmt, is_stub,
}

-- The argument is the literal of a message, or one call of which that literal is the first argument.
abbrev pub IsMessage : Node → Text → Type 0
IsMessage arg s =
    (arg ≡ string_lit s)
    ⊎ ((f : Node) × (args : Nodes) × (arg ≡ call_expr f (cons (string_lit s) args)))

abbrev pub IsStubStmt : Node → Type 0
IsStubStmt s =
    (arg : Node) × (rest : Text) × (s
      ≡ expr_stmt (call_expr (ident (codes "panic")) (cons arg nil)))
    × IsMessage arg (not_implemented ++ rest)

-- The body is one statement, a panic about what is not implemented.
abbrev pub IsStub : FuncDecl → Type 0
IsStub fn =
    (body : Body) × (s : Node) × (fn.body ≡ some body) × (body.stmts ≡ s ∷ []) × IsStubStmt s

has_prefix-eq-true : (p s : Text) → has_prefix p s ≡ true → (rest : Text) × (s ≡ p ++ rest)
has_prefix-eq-true p s h = elim (Option-cases (after_prefix p s)) [
  | inl e ↦ absurd (cc)
  | inr (rest, e) ↦ (rest, after_prefix-eq-some p s rest e)
]

has_prefix-append : (p rest : Text) → has_prefix p (p ++ rest) ≡ true
has_prefix-append p rest = rw (has_prefix, after_prefix-append p rest) refl

literal-IsMessage : (arg : Node) (s : Text) → literal arg ≡ s → s ≢ [] → arg ≡ string_lit s
literal-IsMessage (string_lit t) s e h = ap string_lit e
literal-IsMessage (ident n) s e h = absurd (h (sym e))
literal-IsMessage (call_expr f args) s e h = absurd (h (sym e))
literal-IsMessage (star_expr x) s e h = absurd (h (sym e))
literal-IsMessage (expr_stmt x) s e h = absurd (h (sym e))
literal-IsMessage (type_spec n ps t) s e h = absurd (h (sym e))
literal-IsMessage (struct_type fields) s e h = absurd (h (sym e))
literal-IsMessage (other children) s e h = absurd (h (sym e))

panic_message_iff : (arg : Node) (s : Text) → s ≢ [] → (panic_message arg ≡ s) ↔ IsMessage arg s
unfolding panic_message
panic_message_iff (call_expr f nil) s h =
    (λ e. absurd (h (sym e)), λ m. elim m [ inl e ↦ absurd (cc) | inr (g, args, e) ↦ absurd (cc) ])
panic_message_iff (call_expr f (cons arg args)) s h = (
  λ e. inr (f, args, ap (λ a. call_expr f (cons a args)) (literal-IsMessage arg s e h)),
  λ m. elim m [
    | inl e ↦ absurd (cc)
    | inr (g, rest, e) ↦ let same : arg ≡ string_lit s = cc in rw same refl
  ],
)
panic_message_iff (string_lit t) s h =
    (λ e. inl (ap string_lit e), λ m. elim m [ inl e ↦ cc | inr (g, rest, e) ↦ absurd (cc) ])
panic_message_iff (ident n) s h =
    (λ e. absurd (h (sym e)), λ m. elim m [ inl e ↦ absurd (cc) | inr (g, rest, e) ↦ absurd (cc) ])
panic_message_iff (star_expr x) s h =
    (λ e. absurd (h (sym e)), λ m. elim m [ inl e ↦ absurd (cc) | inr (g, rest, e) ↦ absurd (cc) ])
panic_message_iff (expr_stmt x) s h =
    (λ e. absurd (h (sym e)), λ m. elim m [ inl e ↦ absurd (cc) | inr (g, rest, e) ↦ absurd (cc) ])
panic_message_iff (type_spec n ps t) s h =
    (λ e. absurd (h (sym e)), λ m. elim m [ inl e ↦ absurd (cc) | inr (g, rest, e) ↦ absurd (cc) ])
panic_message_iff (struct_type fields) s h =
    (λ e. absurd (h (sym e)), λ m. elim m [ inl e ↦ absurd (cc) | inr (g, rest, e) ↦ absurd (cc) ])
panic_message_iff (other children) s h =
    (λ e. absurd (h (sym e)), λ m. elim m [ inl e ↦ absurd (cc) | inr (g, rest, e) ↦ absurd (cc) ])

not_implemented-append : (rest : Text) → not_implemented ++ rest ≢ []
unfolding codes
not_implemented-append rest e = absurd (cc)

is_stub_stmt-eq-true : (s : Node) → is_stub_stmt s ≡ true → IsStubStmt s
unfolding is_stub_stmt
is_stub_stmt-eq-true (expr_stmt (call_expr (ident f) (cons arg nil))) h =
    let (named, prefixed) : (text_eq f (codes "panic") ≡ true)
        × (has_prefix not_implemented (panic_message arg) ≡ true) =
      ground arith in
    let (rest, e) = has_prefix-eq-true not_implemented (panic_message arg) prefixed in
    (
      arg,
      rest,
      ap (λ g. expr_stmt (call_expr (ident g) (cons arg nil)))
          ((text_eq_iff f (codes "panic")).0 named),
      (panic_message_iff arg (not_implemented ++ rest) (not_implemented-append rest)).0 e,
    )
is_stub_stmt-eq-true (expr_stmt (call_expr (ident f) nil)) h = absurd (cc)
is_stub_stmt-eq-true (expr_stmt (call_expr (ident f) (cons arg (cons more args)))) h = absurd (cc)
is_stub_stmt-eq-true (expr_stmt (call_expr (string_lit t) args)) h = absurd (cc)
is_stub_stmt-eq-true (expr_stmt (call_expr (star_expr x) args)) h = absurd (cc)
is_stub_stmt-eq-true (expr_stmt (call_expr (type_spec n ps t) args)) h = absurd (cc)
is_stub_stmt-eq-true (expr_stmt (call_expr (struct_type fields) args)) h = absurd (cc)
is_stub_stmt-eq-true (expr_stmt (call_expr (other children) args)) h = absurd (cc)
is_stub_stmt-eq-true (expr_stmt (call_expr (call_expr g more) args)) h = absurd (cc)
is_stub_stmt-eq-true (expr_stmt (call_expr (expr_stmt x) args)) h = absurd (cc)
is_stub_stmt-eq-true (expr_stmt (string_lit t)) h = absurd (cc)
is_stub_stmt-eq-true (expr_stmt (star_expr x)) h = absurd (cc)
is_stub_stmt-eq-true (expr_stmt (type_spec n ps t)) h = absurd (cc)
is_stub_stmt-eq-true (expr_stmt (struct_type fields)) h = absurd (cc)
is_stub_stmt-eq-true (expr_stmt (other children)) h = absurd (cc)
is_stub_stmt-eq-true (expr_stmt (ident n)) h = absurd (cc)
is_stub_stmt-eq-true (expr_stmt (expr_stmt x)) h = absurd (cc)
is_stub_stmt-eq-true (string_lit t) h = absurd (cc)
is_stub_stmt-eq-true (star_expr x) h = absurd (cc)
is_stub_stmt-eq-true (type_spec n ps t) h = absurd (cc)
is_stub_stmt-eq-true (struct_type fields) h = absurd (cc)
is_stub_stmt-eq-true (other children) h = absurd (cc)
is_stub_stmt-eq-true (ident n) h = absurd (cc)
is_stub_stmt-eq-true (call_expr g args) h = absurd (cc)

is_stub_stmt-of_stub : (s : Node) → IsStubStmt s → is_stub_stmt s ≡ true
unfolding is_stub_stmt
is_stub_stmt-of_stub s (arg, rest, e, m) =
    let says =
      (panic_message_iff arg (not_implemented ++ rest) (not_implemented-append rest)).1 m in
    rw (e, text_eq_self (codes "panic"), says, has_prefix-append not_implemented rest) refl

abbrev one_stub : List Node → Bool
one_stub stmts = elim stmts [
  | [] ↦ false
  | s ∷ more ↦ elim more [ [] ↦ is_stub_stmt s | _ ∷ _ ↦ false ]
]

abbrev stub_of : Option Body → Bool
stub_of body = elim body [ none ↦ false | some b ↦ one_stub b.stmts ]

singleton :
    (stmts : List Node)
    → one_stub stmts ≡ true
    → (s : Node) × (stmts ≡ s ∷ []) × (is_stub_stmt s ≡ true)
singleton [] h = absurd (cc)
singleton (s ∷ []) h = (s, refl, h)
singleton (s ∷ (t ∷ more)) h = absurd (cc)

-- isStub accepts exactly the methods whose body is one statement: a call of panic with one argument, a
-- string literal that starts with "not implemented", or a call with such a literal as its first argument.
pub is_stub_iff : (fn : FuncDecl) → (is_stub fn ≡ true) ↔ IsStub fn
unfolding is_stub
is_stub_iff fn = (forward, backward)
  where
    forward : is_stub fn ≡ true → IsStub fn
    forward h = elim (Option-cases fn.body) [
      | inl e ↦ absurd (let same = subst (λ o. stub_of o ≡ true) e h in cc)
      | inr (body, e) ↦
          let (s, one, stub) = singleton body.stmts (subst (λ o. stub_of o ≡ true) e h) in
          (body, s, e, one, is_stub_stmt-eq-true s stub)
    ]

    backward : IsStub fn → is_stub fn ≡ true
    backward (body, s, has_body, one, stub) = rw (has_body, one) (is_stub_stmt-of_stub s stub)
