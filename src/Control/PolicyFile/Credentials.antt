-- ===== src/Control/PolicyFile/Credentials.antt =====
-- The credentials of a policy file, src/chute/control.py, once they have been let through.
use chute.Prelude.{
  ℕ, List, Bool, Option, none, some, true, false, [], ◌∷◌, ◌≡◌, arith, All, suc, zero, ap, ◌∙◌, sym,
  refl, subst,
}
use chute.Prelude.Text.{Text, text_eq, text_beq_iff}
use chute.Prelude.Dict.{get, get-put}
use chute.Control.{StaticCredential, mem, StaticPolicy}
use chute.Control.Json.{
  Json, success, integer, boolean, negative, real, string, array, object, null, Loaded,
}
use chute.Control.PolicyFile.{
  optional_positive_int, parse_credential, note_owner, label_taken, is_new, owned_by_other, Seen,
  parse_each_credential, note_credential, map, parse_static_policy_text, parse_static_policy,
  parse_credentials, nothing_seen, as_object, reject_unknown_keys, policy_fields,
  parse_policy_update, as_array,
}
use chute.Control.PolicyFile.Accepted.{distinct_from}
use chute.Control.PolicyFile.Tested.{>>=-eq-success, check-eq-success, success_eq}

-- A lease that is finite lasts a second at least.
abbrev pub lasts : Option ℕ → Bool
lasts none = true
lasts (some zero) = false
lasts (some (suc n)) = true

optional_positive_int-lasts :
    (raw : Json) (o : Option ℕ) → optional_positive_int raw ≡ success o → lasts o ≡ true
unfolding optional_positive_int
optional_positive_int-lasts null o h = ground arith
optional_positive_int-lasts (integer zero) o h = cc
optional_positive_int-lasts (integer (suc n)) o h = ground arith
optional_positive_int-lasts (boolean b) o h = cc
optional_positive_int-lasts (negative n) o h = cc
optional_positive_int-lasts (real n) o h = cc
optional_positive_int-lasts (string s) o h = cc
optional_positive_int-lasts (array xs) o h = cc
optional_positive_int-lasts (object members) o h = cc

parse_credential-lasts :
    (raw : Json) (c : StaticCredential)
    → parse_credential raw ≡ success c
    → lasts c.lease_seconds ≡ true
unfolding parse_credential
parse_credential-lasts raw c h = grind (arith, optional_positive_int-lasts)

-- Whoever is given the label is the owner's.
abbrev pub BelongsTo : Text → Text → StaticCredential → Type 0
BelongsTo label owner d = d.allowed_label ≡ some label → d.account_id ≡ owner

-- What a credential with a label asks of those after it.
abbrev pub AgreesWith : Option Text → Text → List StaticCredential → Type 0
AgreesWith none account cs = Unit
AgreesWith (some label) account cs = All (BelongsTo label account) cs

-- No label is given to two accounts.
abbrev pub HasOneOwner : List StaticCredential → Type 0
HasOneOwner [] = Unit
HasOneOwner (c ∷ cs) = AgreesWith c.allowed_label c.account_id cs × HasOneOwner cs

get-note_owner :
    (label owner account : Text) (given : Option Text) (owners : List (Text × Text))
    → get label owners ≡ some owner
    → label_taken account given owners ≡ false
    → get label (note_owner account given owners) ≡ some owner
unfolding note_owner label_taken owned_by_other
get-note_owner label owner account none owners e h = e
get-note_owner label owner account (some g) owners e h =
    ground (arith, get-put g label account owners, text_beq_iff g label, text_beq_iff owner account)

belongs_of_taken :
    (label owner : Text) (d : StaticCredential) (owners : List (Text × Text))
    → get label owners ≡ some owner
    → label_taken d.account_id d.allowed_label owners ≡ false
    → BelongsTo label owner d
unfolding label_taken owned_by_other
belongs_of_taken label owner d owners e h k = ground (arith, text_beq_iff owner d.account_id)

is_new-parts :
    (c : StaticCredential) (seen : Seen)
    → is_new c seen ≡ true
    → (mem c.credential_id seen.ids ≡ false)
      × (mem c.token_sha256 seen.hashes ≡ false)
      × (label_taken c.account_id c.allowed_label seen.label_owners ≡ false)
unfolding is_new
is_new-parts c seen h = ground arith

-- The first item of a file that is let through, and what is read after it.
first_of_each :
    (raw : Json) (raws : List Json) (seen : Seen) (cs : List StaticCredential)
    → parse_each_credential (raw ∷ raws) seen ≡ success cs
    → (c : StaticCredential) × (rest : List StaticCredential) × (cs ≡ c ∷ rest)
      × (parse_credential raw ≡ success c)
      × (is_new c seen ≡ true)
      × (parse_each_credential raws (note_credential c seen) ≡ success rest)
unfolding parse_each_credential
first_of_each raw raws seen cs h =
    let (c, e0, h0) = >>=-eq-success (parse_credential raw) _ h in
    let (fresh, h1) = check-eq-success _ _ h0 in
    let (rest, e2, h2) =
      >>=-eq-success (parse_each_credential raws (note_credential c seen)) _ h1 in
    (c, rest, sym (success_eq h2), e0, fresh, e2)

each-BelongsTo :
    (raws : List Json) (seen : Seen) (cs : List StaticCredential) (label owner : Text)
    → parse_each_credential raws seen ≡ success cs
    → get label seen.label_owners ≡ some owner
    → All (BelongsTo label owner) cs
unfolding parse_each_credential note_credential
each-BelongsTo [] seen [] label owner h e = tt
each-BelongsTo [] seen (c ∷ cs) label owner h e = cc
each-BelongsTo (raw ∷ raws) seen cs label owner h e =
    let (c, rest, same, e0, fresh, more) = first_of_each raw raws seen cs h in
    let (new_id, new_hash, free) = is_new-parts c seen fresh in
    rw same (
      belongs_of_taken label owner c seen.label_owners e free,
      each-BelongsTo raws (note_credential c seen) rest label owner more
          (get-note_owner label owner c.account_id c.allowed_label seen.label_owners e free),
    )

owner_noted :
    (given : Option Text) (account : Text) (owners : List (Text × Text)) (raws : List Json)
    (seen : Seen) (cs : List StaticCredential)
    → seen.label_owners ≡ note_owner account given owners
    → parse_each_credential raws seen ≡ success cs
    → AgreesWith given account cs
unfolding note_owner
owner_noted none account owners raws seen cs e h = tt
owner_noted (some label) account owners raws seen cs e h =
    each-BelongsTo raws seen cs label account h (
      ap (get label) e
      ∙ ground (arith, get-put label label account owners, text_beq_iff label label))

-- What the credentials of a file are together, after those that `seen` stands for.
pub record IsConsistent (seen : Seen) (cs : List StaticCredential) : Type 0 where
  pub ids_once : distinct_from seen.ids (map (λ c. c.credential_id) cs) ≡ true
  pub hashes_once : distinct_from seen.hashes (map (λ c. c.token_sha256) cs) ≡ true
  pub leases_last : All (λ c. lasts c.lease_seconds ≡ true) cs
  pub one_owner : HasOneOwner cs

pub parse_each_credential-IsConsistent :
    (raws : List Json) (seen : Seen) (cs : List StaticCredential)
    → parse_each_credential raws seen ≡ success cs
    → IsConsistent seen cs
unfolding parse_each_credential distinct_from note_credential
parse_each_credential-IsConsistent [] seen [] h = record {
  ids_once = refl;
  hashes_once = refl;
  leases_last = tt;
  one_owner = tt;
}
parse_each_credential-IsConsistent [] seen (c ∷ cs) h = cc
parse_each_credential-IsConsistent (raw ∷ raws) seen cs h =
    let (c, rest, same, e0, fresh, more) = first_of_each raw raws seen cs h in
    let (new_id, new_hash, free) = is_new-parts c seen fresh in
    let ih = parse_each_credential-IsConsistent raws (note_credential c seen) rest more in
    rw same (record {
      ids_once = ground (arith, ih.ids_once);
      hashes_once = ground (arith, ih.hashes_once);
      leases_last = (parse_credential-lasts raw c e0, ih.leases_last);
      one_owner = (
        owner_noted c.allowed_label c.account_id seen.label_owners raws (note_credential c seen)
            rest refl more,
        ih.one_owner,
      );
    })

-- In a policy that is let through, no two credentials share an id or a token hash, every lease
-- lasts at least a second, and no label is reserved for two accounts.
pub parse_static_policy_text-IsConsistent :
    (loads : Text → Loaded Json) (text : Text) (p : StaticPolicy)
    → parse_static_policy_text loads text ≡ success p
    → IsConsistent nothing_seen p.credentials
unfolding parse_static_policy_text parse_static_policy parse_credentials
parse_static_policy_text-IsConsistent loads text p h =
    let (raw, e0, h0) = >>=-eq-success (loads text) _ h in
    let (fields, e1, h1) = >>=-eq-success (as_object raw) _ h0 in
    let (keys, e2, h2) = >>=-eq-success (reject_unknown_keys fields policy_fields) _ h1 in
    let (version, h3) = check-eq-success _ _ h2 in
    let (credentials, e4, h4) = >>=-eq-success (parse_credentials _) _ h3 in
    let (update, e5, h5) = >>=-eq-success (parse_policy_update fields) _ h4 in
    let (items, e6, h6) = >>=-eq-success (as_array _) _ e4 in
    let (some_items, h7) = check-eq-success _ _ h6 in
    let (few, h8) = check-eq-success _ _ h7 in
    subst (IsConsistent nothing_seen) (ap (λ (q : StaticPolicy). q.credentials) (success_eq h5))
      (parse_each_credential-IsConsistent items nothing_seen credentials h8)
