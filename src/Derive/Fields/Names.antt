-- ===== src/Derive/Fields/Names.antt =====
-- zzrpc-derive/src/lib.rs, `format_ident!`: the names of generated fields, each the name of a method
-- with a suffix, as texts.
use Prim.Native.String.{String, count, ◌++◌ as ◌<>◌}
use text.Mathlib.Text.{◌==◌}
use text.Mathlib.TextEquality.{eq_iff}
use text.Mathlib.TextLemmas.{append_assoc, append_cancel_right, append_inj, length-append}
use zzrpc.Prelude.{◌≡◌, refl, sym, ap, ◌∙◌, inl, inr, true, false, Bool-cases, ◌<◌, arith}

pub same : (s : String) → (s == s) ≡ true
same s = (eq_iff s s).1 refl

-- Texts that are not equal.
differ : (s t : String) → (s ≡ t → true ≡ false) → (s == t) ≡ false
differ s t f = elim (Bool-cases (s == t)) [ inl e ↦ e ∙ f ((eq_iff s t).0 e) | inr e ↦ e ]

pub same_suffix : (a b s : String) → ((a <> s) == (b <> s)) ≡ (a == b)
same_suffix a b s = elim (Bool-cases (a == b)) [
  | inl e ↦ (eq_iff (a <> s) (b <> s)).1 (ap (λ x. x <> s) ((eq_iff a b).0 e)) ∙ sym e
  | inr e ↦
      differ (a <> s) (b <> s) (λ p. sym ((eq_iff a b).1 (append_cancel_right a b s p)) ∙ e) ∙ sym e
]

-- Suffixes of the same length that are not equal.
pub other_suffix :
    (a b s t : String) → count s ≡ count t → (s == t) ≡ false → ((a <> s) == (b <> t)) ≡ false
other_suffix a b s t n e = differ (a <> s) (b <> t) (λ p.
    let whole = sym (length-append a s) ∙ ap count p ∙ length-append b t in
    let prefixes : count a ≡ count b = omega arith in
    sym ((eq_iff s t).1 (append_inj p prefixes).1) ∙ e)

-- A text that is shorter than the suffix.
pub short : (a s t : String) → count t < count s → (t == (a <> s)) ≡ false
short a s t n = differ t (a <> s) (λ p. let whole = ap count p ∙ length-append a s in ground arith)

pub requests-receiver : (a b : String) → ((a <> "__requests") == (b <> "__receiver")) ≡ false
requests-receiver a b = other_suffix a b "__requests" "__receiver" refl refl

pub receiver-requests : (a b : String) → ((a <> "__receiver") == (b <> "__requests")) ≡ false
receiver-requests a b = other_suffix a b "__receiver" "__requests" refl refl

long : (b : String) → (b <> "__") <> "receiver" ≡ b <> "__receiver"
long b = append_assoc b "__" "receiver"

pub sender-receiver : (a b : String) → ((a <> "__sender") == (b <> "__receiver")) ≡ false
sender-receiver a b =
    ap (λ x. (a <> "__sender") == x) (sym (long b))
    ∙ other_suffix a (b <> "__") "__sender" "receiver" refl refl

pub receiver-sender : (a b : String) → ((a <> "__receiver") == (b <> "__sender")) ≡ false
receiver-sender a b =
    ap (λ x. x == (b <> "__sender")) (sym (long a))
    ∙ other_suffix (a <> "__") b "receiver" "__sender" refl refl

pub pending-requests : (a : String) → ("pending" == (a <> "__requests")) ≡ false
pending-requests a = short a "__requests" "pending" (omega arith)

pub pending-receiver : (a : String) → ("pending" == (a <> "__receiver")) ≡ false
pending-receiver a = short a "__receiver" "pending" (omega arith)
