-- ===== src/Tests/Registry.antt =====
-- The UAA client of remote-clients/uaa_client.go over a registry in memory, whose filter is read back.
use boshv.Base.{
  ℕ, true, false, ◌>>=◌, ◌∙◌, if◌then◌else◌, str_discrete, ◌≡◌, refl, ap, Option, none, some, List,
  [], ◌∷◌, ◌++◌, Str, str, ok, arith,
}
use boshv.Base.Lists.{length}
use boshv.Base.Outcome.{Ensures}
use boshv.Remote.UaaClient.{UaaApi, ClientRecord, uaa_client_impl}
use boshv.Remote.UaaClient.Registry.{
  is_known, Partly, KeepsClients, Same, Becomes, credentials, register, client_registry,
}

abbrev Clients : Type 0
Clients = Str → Option ClientRecord

abbrev butlast : Str → Str
butlast [] = []
butlast (c ∷ []) = []
butlast (c ∷ d ∷ s) = c ∷ butlast (d ∷ s)

abbrev skip : Str → Str → Str
skip [] s = s
skip (p ∷ ps) [] = []
skip (p ∷ ps) (c ∷ s) = skip ps s

butlast-append : (s : Str) (c : ℕ) → butlast (s ++ c ∷ []) ≡ s
butlast-append [] c = refl
butlast-append (d ∷ []) c = refl
butlast-append (d ∷ e ∷ s) c = ap (λ t. d ∷ t) (butlast-append (e ∷ s) c)

abbrev to_list : Option ClientRecord → List ClientRecord
to_list none = []
to_list (some c) = c ∷ []

abbrev api : UaaApi Clients Str
api = record {
  list_clients =
      λ filter _ _ _ _ w. (ok (to_list (w (butlast (skip (str "client_id eq \"") filter)))), w);
  create_client = λ c w. (ok tt, register w c.client_id (some c));
  delete_client = λ name w. (ok tt, register w name none);
}

abbrev clients : Clients → Clients
clients w = w

abbrev rest : Clients → Unit {0}
rest _ = tt

read_filter :
    (name : Str)
    → butlast (skip (str "client_id eq \"") (str "client_id eq \"" ++ (name ++ str "\""))) ≡ name
unfolding str
read_filter name = butlast-append name _

one_or_none : (c : Option ClientRecord) → length (to_list c) ≡ (if is_known c then 1 else 0)
one_or_none none = refl
one_or_none (some c) = refl

law : KeepsClients api clients rest
law = record {
  lists = λ name _ _ _ w _ _.
      (ap (λ n. length (to_list (w n))) (read_filter name) ∙ one_or_none (w name), (refl, refl));
  creates = λ c w. (refl, refl);
  deletes = λ name w. (refl, refl);
}

abbrev nobody : Clients
nobody _ = none

client_registry_example :
    let uc = uaa_client_impl api in
    let made = some (credentials api clients rest (str "c") (str "s") []) in
    Ensures
      (λ known w. (known ≡ false) × Same api clients rest nobody w)
      (Same api clients rest nobody)
      (uc.has_client (str "c") nobody)
    × Ensures
        (λ known w. (known ≡ true) × Becomes api clients rest nobody (str "c") made w)
        (Partly api clients rest nobody (str "c") made)
        ((uc.create_client (str "c") (str "s") [] >>= λ _. uc.has_client (str "c")) nobody)
    × Ensures
        (λ known w. (known ≡ false) × Becomes api clients rest nobody (str "c") none w)
        (Partly api clients rest nobody (str "c") none)
        ((uc.delete_client (str "c") >>= λ _. uc.has_client (str "c")) nobody)
unfolding str str_discrete
client_registry_example =
    client_registry api clients rest law (str "c") (str "c") (str "s") [] nobody (ground arith)
      (ground arith)
