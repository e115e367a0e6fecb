-- ===== src/Codec/Records.antt =====
-- Epoch records: helpers.go `EncodeEpochRecordInto` / `DecodeEpochRecord` and their copies.
use dpx.Base.{◌<◌, ◌≡◌, refl, Bytes, none, some, arith, Bool, true, false, ◌==◌}
use dpx.Codec.{
  EpochRecord, two64, encode_epoch_record, decode_epoch_record, decode_epoch_record_or_zero, flag,
  no_epoch,
}
use dpx.Codec.Words.{uint-put_uint}

flag_is_one : (c : Bool) → (flag c == 1) ≡ c
flag_is_one true = refl
flag_is_one false = refl

module _ (er : EpochRecord) (small : er.epoch < two64) where
  -- A record whose epoch is below 2 ^ 64 comes back from its nine bytes.
  pub decode-encode_epoch_record : decode_epoch_record (encode_epoch_record er) ≡ some er
  unfolding decode_epoch_record encode_epoch_record
  decode-encode_epoch_record = λ i.
      some (record {
        epoch = uint-put_uint 8 er.epoch small i;
        is_credit = flag_is_one er.is_credit i;
      })

  pub decode_or_zero-encode : decode_epoch_record_or_zero (encode_epoch_record er) ≡ er
  unfolding decode_epoch_record_or_zero encode_epoch_record
  decode_or_zero-encode = λ i. record {
    epoch = uint-put_uint 8 er.epoch small i;
    is_credit = flag_is_one er.is_credit i;
  }

-- The two readers of a record agree, but that the engines' one hides a short record.
pub decode_agree :
    (b : Bytes)
    → decode_epoch_record_or_zero b
      ≡ (elim (decode_epoch_record b) [ none ↦ no_epoch | some er ↦ er ])
unfolding decode_epoch_record decode_epoch_record_or_zero
decode_agree b = ground arith
