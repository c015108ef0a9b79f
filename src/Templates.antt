-- ===== src/Templates.antt =====
-- internal/notifytemplates/notifytemplates.go. A message is the list of its characters; `%d` of
-- fmt.Sprintf is a parameter.
use promo_go.Base.{ℕ, ◌++◌, Text, codes}
use promo_go.Base.Int.{ℤ}

pub record Rendered : Type 0 where
  pub template_id : Text
  pub version : ℕ
  pub message : Text

abbrev pub accrual_credited_id : Text
accrual_credited_id = codes "accrual_credited"

abbrev pub redeem_debited_id : Text
redeem_debited_id = codes "redeem_debited"

abbrev pub refund_adjusted_id : Text
refund_adjusted_id = codes "refund_adjusted"

abbrev pub app_invite_id : Text
app_invite_id = codes "app_invite"

abbrev pub template_version : ℕ
template_version = 1

module _ (format_int : ℤ → Text) where
  abbrev pub accrual_credited : ℤ → Rendered
  accrual_credited points = record {
    template_id = accrual_credited_id;
    version = template_version;
    message = codes "Вам начислено " ++ (format_int points ++ codes " баллов");
  }

  abbrev pub redeem_debited : ℤ → Rendered
  redeem_debited points = record {
    template_id = redeem_debited_id;
    version = template_version;
    message = codes "Списано " ++ (format_int points ++ codes " баллов");
  }

  abbrev pub refund_adjusted : ℤ → Rendered
  refund_adjusted delta = record {
    template_id = refund_adjusted_id;
    version = template_version;
    message = codes "Возврат: скорректировано " ++ (format_int delta ++ codes " баллов");
  }

abbrev pub app_invite : Text → Text → Rendered
app_invite store_name app_url = record {
  template_id = app_invite_id;
  version = template_version;
  message = store_name ++ (codes ": ваши баллы — в приложении " ++ app_url);
}
