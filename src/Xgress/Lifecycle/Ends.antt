-- ===== src/Xgress/Lifecycle/Ends.antt =====
-- An Xgress ends once, when both of its directions have ended.
