-- ===== src/Console/Unique.antt =====
-- crates/management-ui/src/console_accounts.rs: no two rows share a mailbox or a key.
pub mod Edit
use surmount_server.Assoc.{is_some}
use surmount_server.Console.{
  ConsoleAccountEntry, find, has_key, has_mailbox, is_some_of, mailbox_normalized, npub_normalized,
}
use surmount_server.Net.{ip_eq}
use surmount_server.Prelude.{
  Bool, Bool-cases, List, Option, [], ap, arith, false, if◌then◌else◌, inl, inr, list_beq_iff,
  list_eq, nat_eq, none, not, refl, some, true, ◌&&◌, ◌∷◌, ◌≡◌, ◌≢◌,
}
use surmount_server.Text.{Text}

abbrev pub absent :
    (Text → ConsoleAccountEntry → Bool) → Option Text → List ConsoleAccountEntry → Bool
absent has none es = true
absent has (some t) es = not (is_some (find (has t) es))

-- no later row has the mailbox or the key of an earlier one
unfoldable pub unique_rows : List ConsoleAccountEntry → Bool
unique_rows [] = true
unique_rows (e ∷ es) =
    absent has_key (npub_normalized e) es
    && absent has_mailbox (mailbox_normalized e) es
    && unique_rows es

pub find-both :
    (p q : ConsoleAccountEntry → Bool) (es : List ConsoleAccountEntry) {x : ConsoleAccountEntry}
    → find p es ≡ some x
    → q x ≡ true
    → find q es ≢ none
find-both p q [] h hit e = absurd cc
find-both p q (e ∷ es) h hit none_left = elim (Bool-cases (p e)) [
  | inl here ↦ ground arith
  | inr there ↦ find-both p q es (ground arith) hit (ground arith)
]

pub missed :
    (b : Bool) (e : ConsoleAccountEntry) (o : Option ConsoleAccountEntry)
    → (if b then some e else o) ≡ none
    → (b ≡ false) × (o ≡ none)
missed true e o h = absurd cc
missed false e o h = (refl, h)

pub is_some_of-eq : (o : Option Text) (t : Text) → is_some_of o t ≡ true → o ≡ some t
is_some_of-eq none t h = absurd cc
is_some_of-eq (some s) t h = ap some ((list_beq_iff s t).0 h)

pub split_three : (a b c : Bool) → a && b && c ≡ true → (a ≡ true) × (b ≡ true) × (c ≡ true)
split_three a b c h = ground arith

pub absent-nil : (o : Option Text) → absent has_key o [] ≡ true
absent-nil none = refl
absent-nil (some t) = refl

pub absent-none : (o : Option ConsoleAccountEntry) → not (is_some o) ≡ true → o ≡ none
absent-none none h = refl
absent-none (some e) h = absurd cc

-- the key is on a row of a mailbox other than `m`
abbrev pub elsewhere : Text → Option Text → List ConsoleAccountEntry → Bool
elsewhere m none es = false
elsewhere m (some hex) es = elim (find (has_key hex) es) [
  | some existing ↦ not (has_mailbox m existing)
  | none ↦ false
]

-- a row of another mailbox has not the key, where the key is on no row of another mailbox
pub no_key :
    (m hex : Text) (e : ConsoleAccountEntry) (es : List ConsoleAccountEntry)
    → has_mailbox m e ≡ false
    → elsewhere m (some hex) (e ∷ es) ≡ false
    → has_key hex e ≡ false
no_key m hex e es miss h = elim (Bool-cases (has_key hex e)) [
  | inl hit ↦ absurd (ground arith)
  | inr free ↦ free
]

pub pass :
    (m hex : Text) (e : ConsoleAccountEntry) (es : List ConsoleAccountEntry)
    → has_mailbox m e ≡ false
    → elsewhere m (some hex) (e ∷ es) ≡ false
    → elsewhere m (some hex) es ≡ false
pass m hex e es miss h = ground (arith, no_key m hex e es miss h)
