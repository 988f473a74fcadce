-- ===== src/Auth/EnrolLaws.antt =====
-- BBgrid_Server/http/server.go: what a registration by a voucher that succeeds has done.
use bbgrid.Prelude.{
  ℕ, ◌≡◌, refl, ap, ◌∙◌, subst, true, false, ◌||◌, Option, none, some, [], Text, text_key, is_some,
  Bool-cases, inl, inr, ==_refl,
}
use bbgrid.GoText.{codes}
use bbgrid.GoMap.{get, get-put}
use bbgrid.Auth.Disk.{WriteOutcome, written, not_opened, cut_off, not_closed, writes}
use bbgrid.Auth.Registry.{
  Status, pending, approved, ClientRecord, Registry, application, save_registry, add_application,
  update_found, update_public_key,
}
use bbgrid.Auth.Approval.{approval, approve, approve_found, approve_status, approve_signed}
use bbgrid.Auth.Vouchers.{Voucher, VoucherBook, VoucherReply, use_voucher}
use bbgrid.Auth.VoucherRuns.{accepts}
use bbgrid.Auth.Enrol.{
  Manager, Attempt, Answer, bad_request, server_error, enrolled, is_empty, or_default, first_answer,
  approve_new, after_update, after_add, after_voucher, register_voucher,
}

module _ (sign : ℕ → Text → Text → Option Text) where
  -- The client is approved, with a certificate that was signed for the key.
  pub record IsEnrolled (m : Registry) (id key certificate name role : Text) : Type 0 where
    pub client : ClientRecord
    pub found : get m.clients id ≡ some client
    pub is_approved : client.status ≡ approved
    pub has_key : client.public_key ≡ key
    pub has_certificate : client.certificate ≡ certificate
    pub in_namespace : client.namespace ≡ name
    pub has_role : client.role ≡ role
    pub draw : ℕ
    pub signed : sign draw key id ≡ some certificate

  -- What an answer says of the registry that it comes with.
  abbrev pub Upholds : Text → Text → Registry × Answer → Type 0
  Upholds id key (m, bad_request) = Unit
  Upholds id key (m, server_error) = Unit
  Upholds id key (m, enrolled certificate name role) = IsEnrolled m id key certificate name role

  approve_signed-Upholds :
      (m : Registry) (id name role : Text) (a : Attempt) (o : WriteOutcome) (r : ClientRecord)
      (c : Option Text)
      → sign a.draw r.public_key id ≡ c
      → Upholds id r.public_key
          (first_answer sign id name role a (approve_signed sign m id name role a.now o r c))
  unfolding approve_signed writes save_registry
  approve_signed-Upholds m id name role a o r none e = tt
  approve_signed-Upholds m id name role a written r (some c) e = record {
    client = approval sign r c name role a.now;
    found = rw (get-put m.clients id id _, ==_refl id) refl;
    is_approved = refl;
    has_key = refl;
    has_certificate = refl;
    in_namespace = refl;
    has_role = refl;
    draw = a.draw;
    signed = e;
  }
  approve_signed-Upholds m id name role a not_opened r (some c) e = tt
  approve_signed-Upholds m id name role a cut_off r (some c) e = tt
  approve_signed-Upholds m id name role a not_closed r (some c) e = tt

  approve_status-Upholds :
      (m : Registry) (id name role : Text) (a : Attempt) (r : ClientRecord) (s : Status)
      → s ≡ pending
      → Upholds id r.public_key (
          first_answer sign id name role a
            (approve_status sign m id name role a.draw a.now a.approve_write r s))
  unfolding approve_status
  approve_status-Upholds m id name role a r pending e =
      approve_signed-Upholds m id name role a a.approve_write r (sign a.draw r.public_key id) refl
  approve_status-Upholds m id name role a r approved e = cc
  approve_status-Upholds m id name role a r (Status.other s) e = cc

  -- When the handler approves, nobody has changed the entry of this client since its last call.
  abbrev pub IsQuiet : Text → Attempt → Type 0
  IsQuiet id a = (m : Registry) → get (a.before_approve m).clients id ≡ get m.clients id

  -- A pending client is approved, or the answer is an error.
  approve_new-Upholds :
      (m : Registry) (id name role : Text) (a : Attempt) (r : ClientRecord)
      → get m.clients id ≡ some r
      → r.status ≡ pending
      → IsQuiet id a
      → Upholds id r.public_key (approve_new sign m id name role a)
  unfolding approve_new approve approve_found
  approve_new-Upholds m id name role a r found p quiet =
      rw (quiet m, found) (approve_status-Upholds (a.before_approve m) id name role a r r.status p)

  update_found-Upholds :
      (m : Registry) (id key name role : Text) (a : Attempt) (f : Option ClientRecord)
      → IsQuiet id a
      → Upholds id key (after_update sign id name role a (update_found m id key a.update_write f))
  unfolding after_update update_found save_registry
  update_found-Upholds m id key name role a none quiet = tt
  update_found-Upholds m id key name role a (some r) quiet =
      elim (Bool-cases (writes a.update_write)) [
        | inl p ↦ rw p (
            approve_new-Upholds _ id name role a
              (record r { public_key = key; certificate = []; status = pending })
              (rw (get-put m.clients id id _, ==_refl id) refl) refl quiet)
        | inr p ↦ rw p tt
      ]

  add_application-Upholds :
      (m : Registry) (id key name role : Text) (a : Attempt)
      → IsQuiet id a
      → Upholds id key
          (after_add sign id key name role a (add_application m id key a.now a.add_write))
  unfolding after_add add_application update_public_key save_registry
  add_application-Upholds m id key name role a quiet =
      elim (Bool-cases (is_some (get m.clients id))) [
        | inl p ↦ rw p (
            update_found-Upholds (a.before_update m) id key name role a
              (get (a.before_update m).clients id) quiet)
        | inr p ↦ elim (Bool-cases (writes a.add_write)) [
          | inl q ↦
              rw (p, q)
                (approve_new-Upholds _ id name role a (application id key a.now)
                  (rw (get-put m.clients id id _, ==_refl id) refl) refl quiet)
          | inr q ↦ rw (p, q) tt
        ]
      ]

  abbrev pub Accepts : Text → Text → VoucherBook × VoucherReply → Manager × Answer → Type 0
  Accepts id key u (m, bad_request) = Unit
  Accepts id key u (m, server_error) = Unit
  Accepts id key (book, reply) (m, enrolled certificate name role) =
      IsEnrolled m.registry id key certificate name role × (accepts reply ≡ 1) × (m.book ≡ book)

  Upholds-Accepts :
      (id key : Text) (book : VoucherBook) (v : Voucher) (r : Registry × Answer)
      → Upholds id key r
      → Accepts id key (book, VoucherReply.ok v) (record { registry = r.0; book = book }, r.1)
  Upholds-Accepts id key book v (m, bad_request) h = tt
  Upholds-Accepts id key book v (m, server_error) h = tt
  Upholds-Accepts id key book v (m, enrolled certificate name role) h = (h, refl, refl)

  after_voucher-Accepts :
      (m : Registry) (id key : Text) (a : Attempt) (u : VoucherBook × VoucherReply)
      → IsQuiet id a
      → Accepts id key u (after_voucher sign m id key a u)
  unfolding after_voucher
  after_voucher-Accepts m id key a (book, VoucherReply.failed e) quiet = tt
  after_voucher-Accepts m id key a (book, VoucherReply.ok v) quiet =
      Upholds-Accepts id key book v _ (add_application-Upholds (a.before_add m) id key _ _ a quiet)

  -- While other requests change the registry between the calls of the handler, but not the entry of this
  -- client after its key is written and before it is approved: where the answer is a certificate, the
  -- voucher was accepted and its use is counted in the book, and the client is approved with this
  -- certificate, which was signed for the key of the request, in the namespace and the role of the
  -- answer.
  pub register_voucher-Accepts :
      (m : Manager) (id key code : Text) (a : Attempt)
      → IsQuiet id a
      → Accepts id key
          (use_voucher m.book code a.now a.voucher_write)
          (register_voucher sign m id key code a)
  unfolding register_voucher
  register_voucher-Accepts m id key code a quiet =
      elim (Bool-cases (is_empty id || is_empty key || is_empty code)) [
        | inl p ↦ rw p tt
        | inr p ↦ rw p (after_voucher-Accepts m.registry id key a _ quiet)
      ]

  approve_new-answers :
      (m : Registry) (id name role certificate : Text) (a : Attempt) (r : ClientRecord)
      → get m.clients id ≡ some r
      → r.status ≡ pending
      → sign a.draw r.public_key id ≡ some certificate
      → a.approve_write ≡ written
      → IsQuiet id a
      → (approve_new sign m id name role a).1 ≡ enrolled certificate name role
  unfolding approve_new approve approve_found approve_status approve_signed writes
  approve_new-answers m id name role certificate a r found p signed w quiet =
      rw (quiet m, found, p, signed, w) refl

  update_found-answers :
      (m : Registry) (id key name role certificate : Text) (a : Attempt) (f : Option ClientRecord)
      → is_some f ≡ true
      → sign a.draw key id ≡ some certificate
      → a.update_write ≡ written
      → a.approve_write ≡ written
      → IsQuiet id a
      → (after_update sign id name role a (update_found m id key a.update_write f)).1
        ≡ enrolled certificate name role
  unfolding after_update update_found save_registry writes
  update_found-answers m id key name role certificate a none there signed u w quiet = cc
  update_found-answers m id key name role certificate a (some r) there signed u w quiet = rw u (
      approve_new-answers _ id name role certificate a
        (record r { public_key = key; certificate = []; status = pending })
        (rw (get-put m.clients id id _, ==_refl id) refl) refl signed w quiet)

  -- Nor has anybody when it writes the key.
  abbrev IsSteady : Text → Attempt → Type 0
  IsSteady id a = (m : Registry) → get (a.before_update m).clients id ≡ get m.clients id

  add_application-answers :
      (m : Registry) (id key name role certificate : Text) (a : Attempt)
      → sign a.draw key id ≡ some certificate
      → a.add_write ≡ written
      → a.update_write ≡ written
      → a.approve_write ≡ written
      → IsSteady id a
      → IsQuiet id a
      → (after_add sign id key name role a (add_application m id key a.now a.add_write)).1
        ≡ enrolled certificate name role
  unfolding after_add add_application update_public_key save_registry writes
  add_application-answers m id key name role certificate a signed d u w steady quiet =
      elim (Bool-cases (is_some (get m.clients id))) [
        | inl p ↦ rw p (
            update_found-answers (a.before_update m) id key name role certificate a
              (get (a.before_update m).clients id)
              (ap (λ (o : Option ClientRecord). is_some o) (steady m) ∙ p) signed u w quiet)
        | inr p ↦
            rw (p, d)
              (approve_new-answers _ id name role certificate a (application id key a.now)
                (rw (get-put m.clients id id _, ==_refl id) refl) refl signed w quiet)
      ]

  after_voucher-answers :
      (m : Registry) (id key certificate : Text) (a : Attempt) (v : Voucher)
      (u : VoucherBook × VoucherReply)
      → u.1 ≡ VoucherReply.ok v
      → sign a.draw key id ≡ some certificate
      → a.add_write ≡ written
      → a.update_write ≡ written
      → a.approve_write ≡ written
      → IsSteady id a
      → IsQuiet id a
      → (after_voucher sign m id key a u).1
        ≡ enrolled certificate
            (or_default v.namespace (codes "permanent"))
            (or_default v.role (codes "node"))
  unfolding after_voucher
  after_voucher-answers m id key certificate a v (book, VoucherReply.failed e) h signed d u w steady
        quiet =
      cc
  after_voucher-answers m id key certificate a v (book, VoucherReply.ok v') h signed d u w steady
        quiet =
      let same : v' ≡ v = cc in
      subst
        (λ x.
          (after_voucher sign m id key a (book, VoucherReply.ok v')).1
          ≡ enrolled certificate (or_default x.namespace (codes "permanent"))
              (or_default x.role (codes "node")))
        same
        (add_application-answers (a.before_add m) id key _ _ certificate a signed d u w steady
          quiet)

  -- A request with a client, a key and an accepted voucher is answered with a certificate, in the
  -- namespace and the role of the voucher or the default ones, whether the client is new or known, if the
  -- signing and the writes succeed and nobody changes the entry of the client meanwhile.
  register_voucher-answers :
      (m : Manager) (id key code certificate : Text) (a : Attempt) (v : Voucher)
      → (is_empty id || is_empty key || is_empty code) ≡ false
      → (use_voucher m.book code a.now a.voucher_write).1 ≡ VoucherReply.ok v
      → sign a.draw key id ≡ some certificate
      → a.add_write ≡ written
      → a.update_write ≡ written
      → a.approve_write ≡ written
      → IsSteady id a
      → IsQuiet id a
      → (register_voucher sign m id key code a).1
        ≡ enrolled certificate
            (or_default v.namespace (codes "permanent"))
            (or_default v.role (codes "node"))
  unfolding register_voucher
  register_voucher-answers m id key code certificate a v full voucher signed d u w steady quiet =
      rw full (
        after_voucher-answers m.registry id key certificate a v _ voucher signed d u w steady quiet)
