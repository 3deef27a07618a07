-- ===== src/Evt/Codec.antt =====
-- EventPoolManager.__encode and __decode (evt/evt_pool_manager.py). The loop over the keys is the
-- application to each column: `price`, `assigned_block_nbr` and `submission_block_nbr` are changed
-- where they are not None, and every other key is copied.
use mathlib.Core.Option
use qsp_protocol_node.Prelude.{ℕ, ◌≡◌, refl, Option, none, some, arith}
use qsp_protocol_node.Evt.{Event, Evt}
use qsp_protocol_node.Evt.Decimal.{Text, str, int, int-str}

-- An event as the database holds it.
abbrev pub Row : Type 0
Row = Event Text

module _ {N M : Type 0} where
  -- The dictionary with the three number columns given anew.
  abbrev pub with_numbers : Event N → M → Option M → M → Event M
  with_numbers evt assigned submission price = record {
    request_id = evt.request_id;
    requestor = evt.requestor;
    contract_uri = evt.contract_uri;
    evt_name = evt.evt_name;
    assigned_block_nbr = assigned;
    submission_block_nbr = submission;
    fk_status = evt.fk_status;
    fk_type = evt.fk_type;
    price = price;
    status_info = evt.status_info;
    tx_hash = evt.tx_hash;
    submission_attempts = evt.submission_attempts;
    is_persisted = evt.is_persisted;
    audit_uri = evt.audit_uri;
    audit_hash = evt.audit_hash;
    audit_state = evt.audit_state;
    full_report = evt.full_report;
    compressed_report = evt.compressed_report;
  }

unfoldable pub encode : Evt → Row
encode evt =
    with_numbers evt (str evt.assigned_block_nbr) (Option.map str evt.submission_block_nbr)
      (str evt.price)

-- `int` of a column that may be None; the outer `none` is the ValueError of `int`.
unfoldable pub decode_nullable : Option Text → Option (Option ℕ)
decode_nullable none = some none
decode_nullable (some t) = Option.map (λ n. some n) (int t)

infixl 5 ◌>>=◌
abbrev ◌>>=◌ : {A B : Type 0} → Option A → (A → Option B) → Option B
none >>= f = none
some a >>= f = f a

-- `none` is the ValueError that `int` raises on a text that is no number.
unfoldable pub decode : Row → Option Evt
unfolding decode_nullable
decode row = do
  assigned ← int row.assigned_block_nbr
  submission ← decode_nullable row.submission_block_nbr
  price ← int row.price
  some (with_numbers row assigned submission price)

decode_nullable-str : (o : Option ℕ) → decode_nullable (Option.map str o) ≡ some o
unfolding decode_nullable
decode_nullable-str none = refl
decode_nullable-str (some n) = ground (arith, int-str n)

-- Decoding an encoded event gives the event back.
pub decode-encode : (evt : Evt) → decode (encode evt) ≡ some evt
unfolding encode
decode-encode evt =
    unfold decode in
    ground (
      arith,
      int-str evt.assigned_block_nbr,
      int-str evt.price,
      decode_nullable-str evt.submission_block_nbr,
    )

-- What decoding leaves alone.
pub decode_keeps :
    (row : Row) (evt : Evt)
    → decode row ≡ some evt
    → (evt.request_id ≡ row.request_id)
      × (evt.fk_status ≡ row.fk_status)
      × (evt.fk_type ≡ row.fk_type)
      × (evt.submission_attempts ≡ row.submission_attempts)
unfolding decode
decode_keeps row evt h = ground arith
